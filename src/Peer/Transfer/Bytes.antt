-- ===== src/Peer/Transfer/Bytes.antt =====
-- Lemmas on the byte lists of the transfer: padding, numbers in memory, and buffers.
use native.Mathlib.Nat.{pow-succ'}
use dart_sync.Base.{
  ℕ, zero, suc, ◌+◌, ◌-◌, ◌*◌, ◌/◌, ◌^◌, ◌≤◌, ◌<◌, ◌≡◌, refl, ap, ◌∙◌, true, some, List, [], ◌∷◌,
  ◌++◌, arith, length, take, drop, replicate, length-append, length-replicate, ok, leb,
}
use dart_sync.Peer.Transfer.{until_zero, strncpy, encode, decode, overlay, recv}

pub take-append : (xs ys : List ℕ) → take (length xs) (xs ++ ys) ≡ xs
take-append [] ys = refl
take-append (x ∷ xs) ys = ap (◌∷◌ x) (take-append xs ys)

pub drop-append : (xs ys : List ℕ) → drop (length xs) (xs ++ ys) ≡ ys
drop-append [] ys = refl
drop-append (x ∷ xs) ys = drop-append xs ys

pub drop-append_more : (xs ys : List ℕ) (k : ℕ) → drop (length xs + k) (xs ++ ys) ≡ drop k ys
drop-append_more [] ys k = ap (λ n. drop n ys) (omega arith)
drop-append_more (x ∷ xs) ys k =
    let e : suc (length xs) + k ≡ suc (length xs + k) = omega arith in
    ap (λ n. drop n (x ∷ (xs ++ ys))) e ∙ drop-append_more xs ys k

pub drop-replicate : (k n a : ℕ) → drop k (replicate n a) ≡ replicate (n - k) a
drop-replicate zero n a = ap (λ m. replicate m a) (omega arith)
drop-replicate (suc k) zero a = ap (λ m. replicate m a) (let e : 0 ≡ 0 - suc k = omega arith in e)
drop-replicate (suc k) (suc n) a =
    drop-replicate k n a
    ∙ ap (λ m. replicate m a) (let e : n - k ≡ suc n - suc k = omega arith in e)

pub length-encode : (k n : ℕ) → length (encode k n) ≡ k
unfolding encode
length-encode zero n = refl
length-encode (suc k) n = ap suc (length-encode k (n / 256))

-- A number that fits into the bytes is read back.
pub decode-encode : (k n : ℕ) → n < 256 ^ k → decode (encode k n) ≡ n
unfolding encode decode
decode-encode zero n h = omega arith
decode-encode (suc k) n h =
    let e : 256 ^ suc k ≡ 256 * 256 ^ k = pow-succ' 256 k in
    let lt : n / 256 < 256 ^ k = omega (arith, e) in omega (arith, decode-encode k (n / 256) lt)

pub length-until_zero : (xs : List ℕ) → length (until_zero xs) ≤ length xs
length-until_zero [] = omega arith
length-until_zero (zero ∷ xs) = omega arith
length-until_zero (suc b ∷ xs) = omega (arith, length-until_zero xs)

until_zero-zeros : (k : ℕ) → until_zero (replicate k 0) ≡ []
until_zero-zeros zero = refl
until_zero-zeros (suc k) = refl

pub until_zero-padded :
    (xs : List ℕ) (k : ℕ) → until_zero (until_zero xs ++ replicate k 0) ≡ until_zero xs
until_zero-padded [] k = until_zero-zeros k
until_zero-padded (zero ∷ xs) k = until_zero-zeros k
until_zero-padded (suc b ∷ xs) k = ap (◌∷◌ (suc b)) (until_zero-padded xs k)

pub length-strncpy : (n : ℕ) (xs : List ℕ) → length xs ≤ n → length (strncpy n xs) ≡ n
unfolding strncpy
length-strncpy n xs h = omega (
  arith,
  length-append (until_zero xs) (replicate (n - length (until_zero xs)) 0),
  length-replicate {A = ℕ} (n - length (until_zero xs)) 0,
  length-until_zero xs,
)

pub replicate-add : (m n a : ℕ) → replicate (m + n) a ≡ replicate m a ++ replicate n a
replicate-add zero n a = ap (λ k. replicate k a) (omega arith)
replicate-add (suc m) n a =
    ap (λ k. replicate k a) (let e : suc m + n ≡ suc (m + n) = omega arith in e)
    ∙ ap (◌∷◌ a) (replicate-add m n a)

-- Bytes written behind the part that is there already, into the zeroes.
pub overlay-zeros :
    (at m : ℕ) (front bytes : List ℕ)
    → length front ≡ at
    → length bytes ≤ m
    → overlay at bytes (front ++ replicate m 0)
      ≡ ok (front ++ (bytes ++ replicate (m - length bytes) 0))
unfolding overlay
overlay-zeros at m front bytes e h =
    let room : leb (at + length bytes) (length (front ++ replicate m 0)) ≡ true =
      ground (arith, length-append front (replicate m 0), length-replicate {A = ℕ} m 0) in
    rw (room, ← e, take-append, drop-append_more, drop-replicate) refl

-- A `recv` of what comes first, where the kernel hands over all of it.
pub recv-front :
    (xs ys : List ℕ)
    → recv (length xs) (record { stream = xs ++ ys; limits = [] })
      ≡ (some xs, record { stream = ys; limits = [] })
unfolding recv
recv-front xs ys = rw (take-append, drop-append) refl
