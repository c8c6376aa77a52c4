-- ===== src/Avtp/Toy.antt =====
-- A header of twelve numbers, one for each field: an instance that shows that the laws can hold.
use tram.Prelude.{ℕ, zero, suc, ◌+◌, ◌%◌, ◌^◌, ◌≡◌, ◌≢◌, some, List, [], ◌∷◌, refl, arith, negsuc}
use tram.Avtp.{CommonField, subtype, version, AafField, Avtp, bits, IsLawful, code, code_injective}

-- a header of any length read as an infinite one
abbrev at : List ℕ → ℕ → ℕ
at [] i = 0
at (x ∷ xs) zero = x
at (x ∷ xs) (suc i) = at xs i

abbrev put : List ℕ → ℕ → ℕ → List ℕ
put [] zero v = v ∷ []
put [] (suc i) v = 0 ∷ put [] i v
put (x ∷ xs) zero v = v ∷ xs
put (x ∷ xs) (suc i) v = x ∷ put xs i v

abbrev common_index : CommonField → ℕ
common_index subtype = 0
common_index version = 1

abbrev index : AafField → ℕ
index f = 2 + code f

at-put : (h : List ℕ) (i v : ℕ) → at (put h i v) i ≡ v
at-put [] zero v = refl
at-put [] (suc i) v = at-put [] i v
at-put (x ∷ xs) zero v = refl
at-put (x ∷ xs) (suc i) v = at-put xs i v

at-put_ne : (h : List ℕ) (i j v : ℕ) → i ≢ j → at (put h i v) j ≡ at h j
at-put_ne [] zero zero v ne = absurd (ne refl)
at-put_ne [] zero (suc j) v ne = refl
at-put_ne [] (suc i) zero v ne = refl
at-put_ne [] (suc i) (suc j) v ne = at-put_ne [] i j v (omega arith)
at-put_ne (x ∷ xs) zero zero v ne = absurd (ne refl)
at-put_ne (x ∷ xs) zero (suc j) v ne = refl
at-put_ne (x ∷ xs) (suc i) zero v ne = refl
at-put_ne (x ∷ xs) (suc i) (suc j) v ne = at-put_ne xs i j v (omega arith)

abbrev pub toy : Avtp
toy = record {
  pdu_init = λ h. some (2 ∷ 0 ∷ []);
  pdu_set = λ h f v. some (put h (index f) (v % 2 ^ bits f));
  pdu_get = λ h f. some (at h (common_index f));
  aaf_get = λ h f. some (at h (index f));
  set_error = negsuc 21;
  subtype_aaf = 2;
  sp_normal = 0;
  int_16bit = 4;
  int_24bit = 3;
  float_32bit = 1;
  nsr_44_1khz = 4;
  nsr_48khz = 5;
  nsr_96khz = 7;
  nsr_192khz = 9;
  sizeof_pdu = 24;
}

index_apart : (f g : AafField) → f ≢ g → index f ≢ index g
index_apart f g ne e = ne (code_injective f g (omega arith))

common_apart : (f : AafField) (g : CommonField) → index f ≢ common_index g
common_apart f g = ground arith

pub toy-IsLawful : IsLawful toy
toy-IsLawful = record {
  init_header = λ h. 2 ∷ 0 ∷ [];
  init_some = λ h. refl;
  init_subtype = λ h. refl;
  init_version = λ h. refl;
  set_header = λ h f v. put h (index f) (v % 2 ^ bits f);
  set_some = λ h f v. refl;
  get-set = λ h f v. rw (at-put h (index f) (v % 2 ^ bits f));
  get-set_ne =
      λ h f g v ne. rw (at-put_ne h (index f) (index g) (v % 2 ^ bits f) (index_apart f g ne));
  pdu_get-set =
      λ h f g v. rw (at-put_ne h (index f) (common_index g) (v % 2 ^ bits f) (common_apart f g));
  sp_fits = refl;
}
