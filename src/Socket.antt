-- ===== src/Socket.antt =====
-- The sockets of avbperf/common.c: `setup_socket_address`, `create_talker_socket`,
-- `create_listener_socket` and `present_data`.
pub mod Cleanup
pub mod Fresh
use tram.Prelude.{
  ℕ, ◌+◌, ◌*◌, ◌/◌, ◌%◌, ◌==◌, if◌then◌else◌, Bool, true, false, Option, none, some, List, length,
  ℤ, pos, negsuc, is_neg, minus_one,
}
use tram.Sys.{
  SockAddr, Env, M, ◌>>=◌, ◌>>◌, pure, sys, answer, emit, socket, set_priority, add_membership,
  get_ifindex, bind, close, write_stdout,
}

abbrev pub eth_p_tsn : ℕ
eth_p_tsn = 0x22F0

abbrev pub eth_alen : ℕ
eth_alen = 6

-- on a little-endian machine
abbrev pub htons : ℕ → ℕ
htons p = p % 256 * 256 + p / 256 % 256

-- `none` is the result -1, where `sk_addr` is left alone.
unfoldable pub setup_socket_address :
    Env → (fd : ℤ) → (ifname macaddr : List ℕ) → (protocol : ℕ) → M (Option SockAddr)
setup_socket_address env fd ifname macaddr protocol = do
  res ← sys env (get_ifindex fd ifname)
  index ← answer env.ifindex
  if is_neg res
      then pure none
      else pure (
          some (record {
            sll_protocol = htons protocol;
            sll_halen = eth_alen;
            sll_ifindex = index;
            sll_addr = macaddr;
          }))

-- `err: close(fd); return -1;`
abbrev pub give_up : ℤ → M ℤ
give_up fd = emit (close fd) >> pure minus_one

abbrev pub is_minus_one : ℤ → Bool
is_minus_one (pos n) = false
is_minus_one (negsuc n) = n == 0

unfoldable pub create_talker_socket : Env → (priority : ℤ) → M ℤ
create_talker_socket env priority = do
  fd ← sys env (socket (htons eth_p_tsn))
  if is_neg fd
      then pure minus_one
      else if is_minus_one priority
      then pure fd
      else do res ← sys env (set_priority fd priority); if is_neg res then give_up fd else pure fd

-- The calls on the socket, once it has its address.
unfoldable pub join_group : Env → (fd : ℤ) → (macaddr : List ℕ) → SockAddr → M ℤ
join_group env fd macaddr sk_addr = do
  res ← sys env (bind fd sk_addr)
  if is_neg res then give_up fd else do
    res ← sys env (add_membership fd sk_addr.sll_ifindex macaddr)
    if is_neg res then give_up fd else pure fd

unfoldable pub create_listener_socket : Env → (ifname macaddr : List ℕ) → (protocol : ℕ) → M ℤ
unfolding setup_socket_address join_group
create_listener_socket env ifname macaddr protocol = do
  fd ← sys env (socket (htons protocol))
  if is_neg fd then pure minus_one else do
    address ← setup_socket_address env fd ifname macaddr protocol
    elim address [ none ↦ give_up fd | some sk_addr ↦ join_group env fd macaddr sk_addr ]

unfoldable pub present_data : Env → List ℕ → M ℤ
present_data env bytes = do
  n ← sys env (write_stdout bytes)
  pure (elim n [ pos k ↦ if k == length bytes then pos 0 else minus_one | negsuc k ↦ minus_one ])
