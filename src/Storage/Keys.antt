-- ===== src/Storage/Keys.antt =====
-- storage/rocksdb/src/generic.rs and storage/heed/src/generic.rs: integers and hashes as keys of a
-- database, big-endian, so that the order of the keys is that of the numbers.
use op_move.Base.{
  ℕ, zero, suc, ◌+◌, ◌*◌, ◌^◌, ◌/◌, ◌%◌, ◌<◌, ◌≤◌, ◌≡◌, refl, sym, ap, ◌∙◌, Bool, true, false, [],
  ◌∷◌, ◌++◌, Bytes, Option, none, some, ◌==◌, if◌then◌else◌, length, length-append, arith, ltb,
  ltb→lt, ==_iff, B256, inl, inr, Bool-cases,
}
use native.Mathlib.Nat.{pow-suc, le_refl}
use op_move.Base.Same.{same_bytes, same_bytes_iff}
use op_move.Base.U256.{mul_mono}
use op_move.Primitives.{be_value, AreBytes, be_value-append, be_value-lt}

-- `to_be_bytes`, of a number of this many bytes.
unfoldable pub to_be_bytes : ℕ → ℕ → Bytes
to_be_bytes zero n = []
to_be_bytes (suc width) n = to_be_bytes width (n / 256) ++ (n % 256) ∷ []

-- `u64::to_key`, and a hash as a key or a value.
unfoldable pub u64_key : ℕ → Bytes
unfolding to_be_bytes
u64_key n = to_be_bytes 8 n

unfoldable pub hash_key : B256 → Bytes
unfolding to_be_bytes
hash_key hash = to_be_bytes 32 hash

-- `try_into` with `from_be_bytes`: byte strings of another length are refused.
unfoldable pub from_be_bytes : ℕ → Bytes → Option ℕ
unfolding be_value
from_be_bytes width bytes = if length bytes == width then some (be_value bytes) else none

-- The order of the keys in a database.
unfoldable pub lex_le : Bytes → Bytes → Bool
lex_le [] ys = true
lex_le (x ∷ xs) [] = false
lex_le (x ∷ xs) (y ∷ ys) =
    let rest = lex_le xs ys in if ltb x y then true else if x == y then rest else false

pub length-to_be_bytes : (w n : ℕ) → length (to_be_bytes w n) ≡ w
unfolding to_be_bytes
length-to_be_bytes zero n = refl
length-to_be_bytes (suc w) n =
    length-append (to_be_bytes w (n / 256)) ((n % 256) ∷ [])
    ∙ omega (arith, length-to_be_bytes w (n / 256))

AreBytes-append : (xs ys : Bytes) → AreBytes xs → AreBytes ys → AreBytes (xs ++ ys)
AreBytes-append [] ys hx hy = hy
AreBytes-append (x ∷ xs) ys hx hy = (hx.0, AreBytes-append xs ys hx.1 hy)

pub to_be_bytes-AreBytes : (w n : ℕ) → AreBytes (to_be_bytes w n)
unfolding to_be_bytes
to_be_bytes-AreBytes zero n = tt
to_be_bytes-AreBytes (suc w) n =
    AreBytes-append _ _ (to_be_bytes-AreBytes w (n / 256)) (omega arith, tt)

quotient_lt : (n value : ℕ) → value < 256 ^ suc n → value / 256 < 256 ^ n
quotient_lt n value h = let e = pow-suc 256 n in omega arith

pub be_value-to_be_bytes : (w n : ℕ) → n < 256 ^ w → be_value (to_be_bytes w n) ≡ n
unfolding to_be_bytes be_value
be_value-to_be_bytes zero n h = omega arith
be_value-to_be_bytes (suc w) n h =
    be_value-append (to_be_bytes w (n / 256)) ((n % 256) ∷ [])
    ∙ rw (be_value-to_be_bytes w (n / 256) (quotient_lt w n h)) (omega arith)

-- A number comes back from its key.
pub from_be_bytes-to_be_bytes : (w n : ℕ) → n < 256 ^ w → from_be_bytes w (to_be_bytes w n) ≡ some n
unfolding from_be_bytes
from_be_bytes-to_be_bytes w n h =
    rw (length-to_be_bytes w n, be_value-to_be_bytes w n h) (ground arith)

-- Keys are the same exactly if the numbers are.
pub same_bytes-to_be_bytes :
    (w m n : ℕ)
    → m < 256 ^ w
    → n < 256 ^ w
    → same_bytes (to_be_bytes w m) (to_be_bytes w n) ≡ (m == n)
same_bytes-to_be_bytes w m n hm hn = elim (Bool-cases (m == n)) [
  | inl e ↦ rw e ((same_bytes_iff _ _).1 (ap (to_be_bytes w) ((==_iff m n).0 e)))
  | inr e ↦ elim (Bool-cases (same_bytes (to_be_bytes w m) (to_be_bytes w n))) [
    | inl same ↦
        let k =
          sym (be_value-to_be_bytes w m hm)
          ∙ ap be_value ((same_bytes_iff _ _).0 same)
          ∙ be_value-to_be_bytes w n hn in
        cc ((==_iff m n).1 k)
    | inr other ↦ rw (e, other)
  ]
]

digit_lt : (x y p v : ℕ) → x < y → v < p → x * p + v < y * p
digit_lt x y p v h k = grind (arith, mul_mono (suc x) y p p h (le_refl p))

-- The first digit decides, unless it is the same.
lex_cons :
    (x y p v w : ℕ) (rest : Bool)
    → v < p
    → (rest ≡ true → v ≤ w)
    → (if ltb x y then true else if x == y then rest else false) ≡ true
    → x * p + v ≤ y * p + w
lex_cons x y p v w rest small ih l = elim (Bool-cases (ltb x y)) [
  | inl less ↦ let h = digit_lt x y p v (ltb→lt x y less) small in omega arith
  | inr more ↦ elim (Bool-cases (x == y)) [
    | inl equal ↦
        let e = (==_iff x y).0 equal in let k = ih (rw (more, equal) at l) in rw e (omega arith)
    | inr other ↦ cc (rw (more, other) at l)
  ]
]

-- On keys of one length the order of the database is the order of the numbers.
pub lex_le-be_value :
    (xs ys : Bytes)
    → length xs ≡ length ys
    → AreBytes xs
    → lex_le xs ys ≡ true
    → be_value xs ≤ be_value ys
unfolding lex_le be_value
lex_le-be_value [] ys e h l = omega arith
lex_le-be_value (x ∷ xs) [] e h l = absurd (omega arith)
lex_le-be_value (x ∷ xs) (y ∷ ys) e h l =
    let same : length xs ≡ length ys = omega arith in
    let small : be_value xs < 256 ^ length ys = rw (← same) (be_value-lt xs h.1) in
    rw same (
      lex_cons x y (256 ^ length ys) (be_value xs) (be_value ys) (lex_le xs ys) small
        (lex_le-be_value xs ys same h.1) l)

pub key_le :
    (w m n : ℕ)
    → m < 256 ^ w
    → n < 256 ^ w
    → lex_le (to_be_bytes w m) (to_be_bytes w n) ≡ true
    → m ≤ n
key_le w m n hm hn l =
    let h =
      lex_le-be_value (to_be_bytes w m) (to_be_bytes w n)
        (length-to_be_bytes w m ∙ sym (length-to_be_bytes w n)) (to_be_bytes-AreBytes w m) l in
    omega (arith, be_value-to_be_bytes w m hm, be_value-to_be_bytes w n hn, h)
