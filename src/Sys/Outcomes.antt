-- ===== src/Sys/Outcomes.antt =====
-- What holds of a run's result, and which calls a run has made.
use tram.Prelude.{ℕ, ◌≡◌, ◌∙◌, Bool, true, false, not, ◌&&◌, ◌∷◌, refl, arith}
use tram.Sys.{
  Call, socket, timerfd_create, close, tc_set, read_key, recv, sendto, pcm_readi, pcm_writei, Env,
  Trace, Outcome, done, exited, faulted, Fault, M, and_then,
}
use tram.Sys.Descriptors.{is_open, attributes, keys}

-- what holds of a result, and of a run without one
abbrev pub Ends : Type 0 → {A : Type 0} → (A → Trace → Type 0) → Outcome A → Type 0
Ends Otherwise P (done a u) = P a u
Ends Otherwise P (exited c u) = Otherwise
Ends Otherwise P (faulted f u) = Otherwise

-- what holds of a result, where there is one
abbrev pub Gives : {A : Type 0} → (A → Trace → Type 0) → Outcome A → Type 0
Gives = Ends Unit

pub Ends-bind :
    (Otherwise : Type 0) {A B : Type 0} (P : A → Trace → Type 0) (Q : B → Trace → Type 0)
    (r : Outcome A) (f : A → M B)
    → Ends Otherwise P r
    → ((a : A) (u : Trace) → P a u → Ends Otherwise Q (f a u))
    → Ends Otherwise Q (and_then r f)
Ends-bind Otherwise P Q (done a u) f h g = g a u h
Ends-bind Otherwise P Q (exited c u) f h g = h
Ends-bind Otherwise P Q (faulted x u) f h g = h

pub Gives-bind :
    {A B : Type 0} (P : A → Trace → Type 0) (Q : B → Trace → Type 0) (r : Outcome A) (f : A → M B)
    → Gives P r
    → ((a : A) (u : Trace) → P a u → Gives Q (f a u))
    → Gives Q (and_then r f)
Gives-bind = Ends-bind Unit

pub Gives-map :
    {A : Type 0} (P Q : A → Trace → Type 0)
    → ((a : A) (u : Trace) → P a u → Q a u)
    → (r : Outcome A) → Gives P r
    → Gives Q r
Gives-map P Q weaker (done a u) h = weaker a u h
Gives-map P Q weaker (exited c u) h = tt
Gives-map P Q weaker (faulted x u) h = tt

-- a result is there, and has the property
abbrev pub Returns : {A : Type 0} → (A → Trace → Type 0) → Outcome A → Type 0
Returns = Ends ⊥

pub Returns-map :
    {A : Type 0} (P Q : A → Trace → Type 0)
    → ((a : A) (u : Trace) → P a u → Q a u)
    → (r : Outcome A) → Returns P r
    → Returns Q r
Returns-map P Q weaker (done a u) h = weaker a u h
Returns-map P Q weaker (exited c u) h = h
Returns-map P Q weaker (faulted x u) h = h

-- the same with the equation
pub Returns-eq :
    {A : Type 0} (P : A → Trace → Type 0) (r : Outcome A)
    → Returns P r
    → Returns (λ a u. P a u × (r ≡ done a u)) r
Returns-eq P (done a u) h = (h, refl)
Returns-eq P (exited c u) h = h
Returns-eq P (faulted x u) h = h

pub Returns-both :
    {A : Type 0} (P Q : A → Trace → Type 0) (r : Outcome A)
    → Returns P r
    → Returns Q r
    → Returns (λ a u. P a u × Q a u) r
Returns-both P Q (done a u) p q = (p, q)
Returns-both P Q (exited c u) p q = absurd p
Returns-both P Q (faulted f u) p q = absurd p

-- A property of a whole run, from one of its first part.
pub Returns-bind :
    {A B : Type 0} (P : A → Trace → Type 0) (Q : Outcome B → Type 0) (r : Outcome A) (f : A → M B)
    → Returns P r
    → ((a : A) (u : Trace) → P a u → Q (f a u))
    → Q (and_then r f)
Returns-bind P Q (done a u) f h g = g a u h
Returns-bind P Q (exited c u) f h g = absurd h
Returns-bind P Q (faulted x u) f h g = absurd h

-- the calls that open or close no descriptor and leave the terminal alone
abbrev pub is_local : Call → Bool
is_local (socket p) = false
is_local timerfd_create = false
is_local (close fd) = false
is_local (tc_set new) = false
is_local _ = true

abbrev pub reads_key : Call → Bool
reads_key read_key = true
reads_key _ = false

-- those of them that do not read the keyboard either
abbrev pub is_quiet : Call → Bool
is_quiet c = is_local c && not (reads_key c)

-- the calls that carry no packet and no samples
abbrev pub is_idle : Call → Bool
is_idle (recv fd size) = false
is_idle (sendto fd pdu size address) = false
is_idle (pcm_readi frames) = false
is_idle (pcm_writei buffer frames) = false
is_idle _ = true

-- the calls that are both
abbrev pub is_calm : Call → Bool
is_calm c = is_quiet c && is_idle c

-- The history `u` is `t` with calls of one class added.
pub data Only (p : Call → Bool) (t : Trace) : Trace → Type 0 where
  here : Only p t t
  next : {u : Trace} (c : Call) → p c ≡ true → Only p t u → Only p t (c ∷ u)

pub Only-trans : {p : Call → Bool} {t u v : Trace} → Only p t u → Only p u v → Only p t v
Only-trans first here = first
Only-trans first (next c e rest) = next c e (Only-trans first rest)

pub Only-weaken :
    {p q : Call → Bool} {t u : Trace}
    → ((c : Call) → p c ≡ true → q c ≡ true)
    → Only p t u
    → Only q t u
Only-weaken weaker here = here
Only-weaken weaker (next c e rest) = next c (weaker c e) (Only-weaken weaker rest)

pub is_quiet-is_local : (c : Call) → is_quiet c ≡ true → is_local c ≡ true
is_quiet-is_local c e = ground arith

pub is_calm-is_quiet : (c : Call) → is_calm c ≡ true → is_quiet c ≡ true
is_calm-is_quiet c e = ground arith

pub is_calm-is_local : (c : Call) → is_calm c ≡ true → is_local c ≡ true
is_calm-is_local c e = ground arith

pub is_calm-is_idle : (c : Call) → is_calm c ≡ true → is_idle c ≡ true
is_calm-is_idle c e = ground arith

keys-quiet : (c : Call) (t : Trace) → is_quiet c ≡ true → keys (c ∷ t) ≡ keys t
keys-quiet read_key t e = cc
keys-quiet _ t e = refl

pub keys-Only : {t u : Trace} → Only is_quiet t u → keys u ≡ keys t
keys-Only here = refl
keys-Only (next {u} c e rest) = keys-quiet c u e ∙ keys-Only rest

attributes-local : (c : Call) (t : Trace) → is_local c ≡ true → attributes (c ∷ t) ≡ attributes t
attributes-local (tc_set new) t e = cc
attributes-local _ t e = refl

pub attributes-Only : {t u : Trace} → Only is_local t u → attributes u ≡ attributes t
attributes-Only here = refl
attributes-Only (next {u} c e rest) = attributes-local c u e ∙ attributes-Only rest

module _ (env : Env) (k : ℕ) where
  is_open-local :
      (c : Call) (t : Trace) → is_local c ≡ true → is_open env k (c ∷ t) ≡ is_open env k t
  is_open-local (socket p) t e = cc
  is_open-local timerfd_create t e = cc
  is_open-local (close fd) t e = cc
  is_open-local _ t e = refl

  pub is_open-Only : {t u : Trace} → Only is_local t u → is_open env k u ≡ is_open env k t
  is_open-Only here = refl
  is_open-Only (next {u} c e rest) = is_open-local c u e ∙ is_open-Only rest

-- the calls that a run has made by its end, however it ends
abbrev pub Makes : {A : Type 0} → (Call → Bool) → Trace → Outcome A → Type 0
Makes p t (done a u) = Only p t u
Makes p t (exited c u) = Only p t u
Makes p t (faulted f u) = Only p t u

pub Makes-weaken :
    {A : Type 0} (p q : Call → Bool) (t : Trace) (r : Outcome A)
    → ((c : Call) → p c ≡ true → q c ≡ true)
    → Makes p t r
    → Makes q t r
Makes-weaken p q t (done a u) weaker h = Only-weaken weaker h
Makes-weaken p q t (exited c u) weaker h = Only-weaken weaker h
Makes-weaken p q t (faulted f u) weaker h = Only-weaken weaker h

pub Makes-after :
    {A : Type 0} (p : Call → Bool) (t u : Trace) (r : Outcome A)
    → Only p t u
    → Makes p u r
    → Makes p t r
Makes-after p t u (done a v) h g = Only-trans h g
Makes-after p t u (exited c v) h g = Only-trans h g
Makes-after p t u (faulted f v) h g = Only-trans h g

pub Makes-bind :
    {A B : Type 0} (p : Call → Bool) (t : Trace) (r : Outcome A) (f : A → M B)
    → Makes p t r
    → ((a : A) (u : Trace) → Makes p u (f a u))
    → Makes p t (and_then r f)
Makes-bind p t (done a u) f h g = Makes-after p t u (f a u) h (g a u)
Makes-bind p t (exited c u) f h g = h
Makes-bind p t (faulted x u) f h g = h

-- A property of a whole run, from the calls that its first part has made.
pub Makes-then :
    {A B : Type 0} (p : Call → Bool) (t : Trace) (Q : Outcome B → Type 0) (r : Outcome A)
    (f : A → M B)
    → Makes p t r
    → ((a : A) (u : Trace) → Only p t u → Q (f a u))
    → ((c : ℕ) (u : Trace) → Only p t u → Q (exited c u))
    → ((x : Fault) (u : Trace) → Only p t u → Q (faulted x u))
    → Q (and_then r f)
Makes-then p t Q (done a u) f h after quits breaks = after a u h
Makes-then p t Q (exited c u) f h after quits breaks = quits c u h
Makes-then p t Q (faulted x u) f h after quits breaks = breaks x u h

pub keys-Makes :
    {A : Type 0} (t : Trace) (r : Outcome A) → Makes is_quiet t r → Gives (λ _ u. keys u ≡ keys t) r
keys-Makes t (done a u) h = keys-Only h
keys-Makes t (exited c u) h = tt
keys-Makes t (faulted f u) h = tt

pub keys-calm :
    {A : Type 0} (t : Trace) (r : Outcome A) → Makes is_calm t r → Gives (λ _ u. keys u ≡ keys t) r
keys-calm t r h = keys-Makes t r (Makes-weaken is_calm is_quiet t r is_calm-is_quiet h)
