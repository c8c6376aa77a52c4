-- ===== src/Avtp.antt =====
-- libavtp, the library that reads and writes AVTP headers: a parameter of the development. The
-- header is the bytes before `avtp_payload`.
pub mod Toy
use mathlib.Core.Path.{subst}
use tram.Prelude.{
  ℕ, zero, suc, ◌%◌, ◌^◌, ◌<◌, ◌≡◌, ◌≢◌, ◌∙◌, refl, sym, ap, Option, none, some, List, arith, ◌==◌,
  ==_iff, if◌then◌else◌, Bool-cases, inl, inr, ℤ,
}

pub data CommonField : Type 0 where
  subtype version : CommonField

pub data AafField : Type 0 where
  tv stream_id format nsr chan_per_frame bit_depth stream_data_len sp seq_num timestamp : AafField

-- the place of a field in the list above
abbrev pub code : AafField → ℕ
code tv = 0
code stream_id = 1
code format = 2
code nsr = 3
code chan_per_frame = 4
code bit_depth = 5
code stream_data_len = 6
code sp = 7
code seq_num = 8
code timestamp = 9

field_at : ℕ → AafField
field_at zero = tv
field_at (suc zero) = stream_id
field_at (suc (suc zero)) = format
field_at (suc (suc (suc zero))) = nsr
field_at (suc (suc (suc (suc zero)))) = chan_per_frame
field_at (suc (suc (suc (suc (suc zero))))) = bit_depth
field_at (suc (suc (suc (suc (suc (suc zero)))))) = stream_data_len
field_at (suc (suc (suc (suc (suc (suc (suc zero))))))) = sp
field_at (suc (suc (suc (suc (suc (suc (suc (suc zero)))))))) = seq_num
field_at _ = timestamp

field_at-code : (f : AafField) → field_at (code f) ≡ f
unfolding field_at
field_at-code f = ground arith

pub code_injective : (f g : AafField) → code f ≡ code g → f ≡ g
code_injective f g e = sym (field_at-code f) ∙ (ap field_at e ∙ field_at-code g)

-- `none` is a negative result.
pub record Avtp : Type 0 where
  pub pdu_init : List ℕ → Option (List ℕ)
  pub pdu_set : List ℕ → AafField → ℕ → Option (List ℕ)
  pub pdu_get : List ℕ → CommonField → Option ℕ
  pub aaf_get : List ℕ → AafField → Option ℕ
  -- the negative result of a write that fails
  pub set_error : ℤ
  pub subtype_aaf : ℕ
  pub sp_normal : ℕ
  pub int_16bit : ℕ
  pub int_24bit : ℕ
  pub float_32bit : ℕ
  pub nsr_44_1khz : ℕ
  pub nsr_48khz : ℕ
  pub nsr_96khz : ℕ
  pub nsr_192khz : ℕ
  -- `sizeof(struct avtp_stream_pdu)`
  pub sizeof_pdu : ℕ

-- the widths of the fields, in bits (IEEE 1722)
abbrev pub bits : AafField → ℕ
bits tv = 1
bits stream_id = 64
bits format = 8
bits nsr = 4
bits chan_per_frame = 10
bits bit_depth = 8
bits stream_data_len = 16
bits sp = 1
bits seq_num = 8
bits timestamp = 32

-- What libavtp documents: a new PDU has the AAF subtype and version 0; setting a field succeeds,
-- stores the value cut to the field's width, and leaves the other fields alone.
pub record IsLawful (a : Avtp) : Type 0 where
  pub init_header : List ℕ → List ℕ
  pub init_some : (h : List ℕ) → a.pdu_init h ≡ some (init_header h)
  pub init_subtype : (h : List ℕ) → a.pdu_get (init_header h) subtype ≡ some a.subtype_aaf
  pub init_version : (h : List ℕ) → a.pdu_get (init_header h) version ≡ some 0
  pub set_header : List ℕ → AafField → ℕ → List ℕ
  pub set_some : (h : List ℕ) (f : AafField) (v : ℕ) → a.pdu_set h f v ≡ some (set_header h f v)
  pub get-set :
      (h : List ℕ) (f : AafField) (v : ℕ) → a.aaf_get (set_header h f v) f ≡ some (v % 2 ^ bits f)
  pub get-set_ne :
      (h : List ℕ) (f g : AafField) (v : ℕ) → f ≢ g → a.aaf_get (set_header h f v) g ≡ a.aaf_get h g
  pub pdu_get-set :
      (h : List ℕ) (f : AafField) (g : CommonField) (v : ℕ)
      → a.pdu_get (set_header h f v) g ≡ a.pdu_get h g
  pub sp_fits : a.sp_normal % 2 ≡ a.sp_normal

-- The codes of the sample formats and rates fit their fields (IEEE 1722).
pub record HasCodes (a : Avtp) : Type 0 where
  pub int_16bit_fits : a.int_16bit < 2 ^ 8
  pub int_24bit_fits : a.int_24bit < 2 ^ 8
  pub float_32bit_fits : a.float_32bit < 2 ^ 8
  pub nsr_44_1khz_fits : a.nsr_44_1khz < 2 ^ 4
  pub nsr_48khz_fits : a.nsr_48khz < 2 ^ 4
  pub nsr_96khz_fits : a.nsr_96khz < 2 ^ 4
  pub nsr_192khz_fits : a.nsr_192khz < 2 ^ 4

-- Reading any field after a write, in a form that rewrites.
pub aaf_get-set :
    (a : Avtp) (laws : IsLawful a) (h : List ℕ) (f g : AafField) (v : ℕ)
    → a.aaf_get (laws.set_header h f v) g
      ≡ (if code f == code g then some (v % 2 ^ bits f) else a.aaf_get h g)
aaf_get-set a laws h f g v = elim (Bool-cases (code f == code g)) [
  | inl same ↦ rw same (
      subst (λ k. a.aaf_get (laws.set_header h f v) k ≡ some (v % 2 ^ bits f))
        (code_injective f g ((==_iff _ _).0 same)) (laws.get-set h f v))
  | inr apart ↦ rw apart (
      laws.get-set_ne h f g v
        (λ e. cc (ap (λ k. code f == code k) e, apart, (==_iff (code f) (code f)).1 refl)))
]
