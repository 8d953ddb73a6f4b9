-- ===== src/Tests/Samples.antt =====
-- Sample metrics and stores over numbers for float64, and stand-ins for the libraries: a codec that
-- can write one counter, a disk of one file, and a cipher that only pads.
use go_metrics_harvester.Base.{
  ℕ, zero, suc, Bool, ◌+◌, ◌-◌, ◌≡◌, ◌⊎◌, inl, inr, refl, ap, ◌∙◌, String, Option, none, some, List,
  [], ◌∷◌, ◌++◌, ◌==◌, ◌&&◌, if◌then◌else◌, Bool-cases, eq_iff, Error, other, Outcome, ok, err,
  arith, length, take, drop, leb, length-append, take-append, leb→le, and_left, and_right,
}
use mathlib.Core.List.{reverse}
use mathlib.Core.List.{Permᴰ}
use mathlib.Core.List.Permᴰ
use go_metrics_harvester.Metric.{Metric, gauge, counter}
use go_metrics_harvester.Metric.Json.{Json, ReadsBack}
use go_metrics_harvester.Memory.{Storage}
use go_metrics_harvester.Service.{Disk}
use go_metrics_harvester.Service.Saving.{Overwrites}
use go_metrics_harvester.Crypto.{Rsa}
use go_metrics_harvester.Crypto.RoundTrip.{InvertsBlocks}

abbrev pub count_of : ℕ → Metric ℕ
count_of d = record { id = "c"; mtype = counter; delta = some d; value = none }

abbrev pub gauge_of : String → ℕ → Metric ℕ
gauge_of id x = record { id = id; mtype = gauge; delta = none; value = some x }

-- One counter, at 5.
abbrev pub counting : Storage ℕ
counting = record { storage = ("c", count_of 5) ∷ [] }

-- A counter and a gauge.
abbrev pub both : Storage ℕ
both = record { storage = ("c", count_of 5) ∷ ("g", gauge_of "g" 7) ∷ [] }

abbrev pub types : String → String
types id = if id == "c" then counter else gauge

abbrev is_plain_counter : Metric ℕ → Bool
is_plain_counter m = m.id == "c" && m.mtype == counter

abbrev encode_one : Option ℕ → Option ℕ → Error ⊎ List ℕ
encode_one (some d) none = inr (1 ∷ d ∷ [])
encode_one _ _ = inl (other "unsupported")

abbrev encode_list : List (Metric ℕ) → Error ⊎ List ℕ
encode_list [] = inr (0 ∷ [])
encode_list (m ∷ []) =
    if is_plain_counter m then encode_one m.delta m.value else inl (other "unsupported")
encode_list _ = inl (other "unsupported")

abbrev decode_list : List ℕ → Error ⊎ List (Metric ℕ)
decode_list (zero ∷ _) = inr []
decode_list (suc _ ∷ d ∷ _) = inr (count_of d ∷ [])
decode_list _ = inl (other "unexpected end")

abbrev pub codec : Json ℕ
codec = record { encode = encode_list; decode = decode_list }

decode-encode_list :
    (l : List (Metric ℕ)) (b rest : List ℕ)
    → encode_list l ≡ inr b
    → decode_list (b ++ rest) ≡ inr l
decode-encode_list [] b rest e = ground arith
decode-encode_list (m ∷ []) b rest e = ground (arith, eq_iff m.id "c", eq_iff m.mtype counter)
decode-encode_list (m ∷ n ∷ l) b rest e = cc e

pub codec-ReadsBack : ReadsBack codec
codec-ReadsBack = record { decode-encode = decode-encode_list }

pub reverse-Permᴰ : (l : List (Metric ℕ)) → Permᴰ l (reverse l)
reverse-Permᴰ l = Permᴰ.symm (Permᴰ.reverse l)

abbrev pub one_file : Disk
one_file = record {
  State = List ℕ;
  open_file = λ path d. (ok tt, d);
  write = λ path b d. (ok tt, b ++ drop (length b) d);
  read = λ path d. d;
}

pub one_file-Overwrites : Overwrites one_file
one_file-Overwrites = record { read-open_file = λ path d _. refl; read-write = λ path b d _. refl }

abbrev pub zeros : ℕ → List ℕ
zeros zero = []
zeros (suc n) = 0 ∷ zeros n

length-zeros : (n : ℕ) → length (zeros n) ≡ n
length-zeros zero = refl
length-zeros (suc n) = omega (arith, length-zeros n)

-- A block behind its length, filled up to the size of the key.
abbrev pub pad : ℕ → List ℕ → List ℕ
pad k m = length m ∷ (m ++ zeros (k - 1 - length m))

abbrev pub pad_block : ℕ → List ℕ → List ℕ → ℕ → Outcome (List ℕ) × ℕ
pad_block k m label r =
    (if leb (length m) (k - 1) && leb 1 k then ok (pad k m) else err (other "too long"), r + 1)

abbrev pub unpad : ℕ → List ℕ → List ℕ → Outcome (List ℕ)
unpad k [] label = err (other "decryption error")
unpad k (n ∷ c) label = ok (take n c)

abbrev pub padding : Rsa
padding = record {
  PublicKey = ℕ;
  PrivateKey = ℕ;
  Random = ℕ;
  hash_size = 1;
  size = λ k. k;
  public_key = λ k. k;
  encrypt_oaep = pad_block;
  decrypt_oaep = unpad;
}

padding_inverts :
    (k : ℕ) (msg label c : List ℕ) (r r' : ℕ)
    → pad_block k msg label r ≡ (ok c, r')
    → (length c ≡ k) × (unpad k c label ≡ ok msg)
padding_inverts k msg label c r r' e = elim (Bool-cases (leb (length msg) (k - 1) && leb 1 k)) [
  | inl fits ↦
      let made : c ≡ pad k msg = ground arith in
      (
        ap length made
            ∙ omega (
              arith,
              length-append msg (zeros (k - 1 - length msg)),
              length-zeros (k - 1 - length msg),
              leb→le (length msg) (k - 1),
              leb→le 1 k,
              and_left (leb (length msg) (k - 1)) (leb 1 k) fits,
              and_right (leb (length msg) (k - 1)) (leb 1 k) fits,
            ),
        ap (λ l. unpad k l label) made ∙ ap ok (take-append msg _),
      )
  | inr long ↦ absurd (
      cc (
        ap (λ (b : Bool). if b then ok (pad k msg) else err (other "too long")) long,
        ap (λ (p : Outcome (List ℕ) × ℕ). p.0) e,
      ))
]

pub padding-InvertsBlocks : (k : ℕ) → InvertsBlocks padding k
padding-InvertsBlocks k = record { inverts = padding_inverts k }
