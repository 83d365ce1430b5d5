-- ===== src/Base/Bytes.antt =====
-- Big-endian bytes.
use Prim.Native.Nat.{ℕ, zero, suc, ◌+◌, ◌*◌, ◌/◌, ◌%◌, ◌^◌, ◌<◌}
use mathlib.Core.Path.{◌≡◌, refl, ap, sym, ◌∙◌}
use mathlib.Core.List.{List, [], ◌∷◌, ◌++◌, append_assoc, append-nil}
use native.Mathlib.Nat.{pow-suc}
use native.Mathlib.Omega.{arith}
use package.gtp_rs.Base.Lists.{length, length-append, All, All-append}

abbrev pub IsByte : ℕ → Type 0
IsByte b = b < 256

-- `to_be_bytes` of a word of `k` bytes, and `from_be_bytes`.
unfoldable pub to_be_bytes : ℕ → ℕ → List ℕ
to_be_bytes zero v = []
to_be_bytes (suc k) v = to_be_bytes k (v / 256) ++ (v % 256 ∷ [])

unfoldable pub from_be : ℕ → List ℕ → ℕ
from_be acc [] = acc
from_be acc (b ∷ bs) = from_be (acc * 256 + b) bs

abbrev pub from_be_bytes : List ℕ → ℕ
from_be_bytes bs = from_be 0 bs

pub length-to_be_bytes : (k v : ℕ) → length (to_be_bytes k v) ≡ k
unfolding to_be_bytes
length-to_be_bytes zero v = refl
length-to_be_bytes (suc k) v =
    omega (
      arith,
      length-append (to_be_bytes k (v / 256)) (v % 256 ∷ []),
      length-to_be_bytes k (v / 256),
    )

pub to_be_bytes-IsByte : (k v : ℕ) → All IsByte (to_be_bytes k v)
unfolding to_be_bytes
to_be_bytes-IsByte zero v = tt
to_be_bytes-IsByte (suc k) v =
    All-append IsByte (to_be_bytes k (v / 256)) (v % 256 ∷ []) (to_be_bytes-IsByte k (v / 256))
      (omega arith)

from_be-snoc : (acc b : ℕ) (bs : List ℕ) → from_be acc (bs ++ (b ∷ [])) ≡ from_be acc bs * 256 + b
unfolding from_be
from_be-snoc acc b [] = refl
from_be-snoc acc b (c ∷ bs) = from_be-snoc (acc * 256 + c) b bs

-- A word of `k` bytes survives the round trip.
pub from_be-to_be_bytes : (k v : ℕ) → v < 256 ^ k → from_be 0 (to_be_bytes k v) ≡ v
unfolding to_be_bytes
from_be-to_be_bytes zero v h = unfold from_be in omega arith
from_be-to_be_bytes (suc k) v h = omega (
  arith,
  from_be-snoc 0 (v % 256) (to_be_bytes k (v / 256)),
  from_be-to_be_bytes k (v / 256) (omega (arith, pow-suc 256 k)),
)

-- What `n` bytes stand for fits `n` bytes.
from_be-lt_acc :
    (bs : List ℕ) (acc k n : ℕ)
    → k + length bs ≡ n
    → All IsByte bs
    → acc < 256 ^ k
    → from_be acc bs < 256 ^ n
unfolding from_be
from_be-lt_acc [] acc k n e h a = let e' : k ≡ n = omega arith in rw (← e') a
from_be-lt_acc (b ∷ bs) acc k n e h a =
    from_be-lt_acc bs (acc * 256 + b) (suc k) n (omega arith) h.1
      (omega (arith, pow-suc 256 k, h.0))

pub from_be-lt : (bs : List ℕ) → All IsByte bs → from_be 0 bs < 256 ^ length bs
from_be-lt bs h = from_be-lt_acc bs 0 0 (length bs) (omega arith) h (omega arith)

-- And the bytes of a word survive the way back.
to_be_bytes-from_be_acc :
    (bs : List ℕ) (acc k n : ℕ)
    → k + length bs ≡ n
    → All IsByte bs
    → to_be_bytes n (from_be acc bs) ≡ to_be_bytes k acc ++ bs
unfolding from_be
to_be_bytes-from_be_acc [] acc k n e h =
    let e' : k ≡ n = omega arith in rw e' (sym (append-nil (to_be_bytes n acc)))
to_be_bytes-from_be_acc (b ∷ bs) acc k n e h =
    to_be_bytes-from_be_acc bs (acc * 256 + b) (suc k) n (omega arith) h.1
    ∙ ap (λ l. l ++ bs) last
    ∙ append_assoc (to_be_bytes k acc) (b ∷ []) bs
  where
    quotient : (acc * 256 + b) / 256 ≡ acc
    quotient = omega (arith, h.0)

    remainder : (acc * 256 + b) % 256 ≡ b
    remainder = omega (arith, h.0)

    last : to_be_bytes (suc k) (acc * 256 + b) ≡ to_be_bytes k acc ++ (b ∷ [])
    last = unfold to_be_bytes in rw (quotient, remainder)

pub to_be_bytes-from_be :
    (bs : List ℕ) → All IsByte bs → to_be_bytes (length bs) (from_be 0 bs) ≡ bs
unfolding to_be_bytes
to_be_bytes-from_be bs h = to_be_bytes-from_be_acc bs 0 0 (length bs) (omega arith) h
