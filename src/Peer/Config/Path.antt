-- ===== src/Peer/Config/Path.antt =====
-- The sync folder that is read from a file of one line.
use mathlib.Core.List.{append_assoc}
use dart_sync.Base.{
  ℕ, zero, suc, ◌-◌, ◌≡◌, ◌≢◌, ◌<◌, ◌≤◌, refl, sym, ap, ◌∙◌, subst, arith, Bool, true, false, some,
  List, [], ◌∷◌, ◌++◌, CString, ltb, ◌==◌, if◌then◌else◌, length, length-append, get_or, ok, All,
}
use dart_sync.Table.{file_name_len}
use dart_sync.Peer.Transfer.{until_zero}
use dart_sync.Peer.Config.{fgets, sync_path, read_config_file, last_byte}

-- Bytes that neither end a string nor a line.
abbrev pub Plain : List ℕ → Type 0
Plain = All (λ b. (b ≢ 0) × (b ≢ 10))

fgets-Plain : (n : ℕ) (line : List ℕ) → Plain line → length line ≤ n → fgets n line ≡ line
unfolding fgets
fgets-Plain zero [] p h = refl
fgets-Plain zero (b ∷ line) p h = absurd (omega arith)
fgets-Plain (suc n) [] p h = refl
fgets-Plain (suc n) (b ∷ line) p h =
    let other : (b == 10) ≡ false = ground (arith, p.0.1) in
    rw (other, fgets-Plain n line p.1 (omega arith)) refl

fgets-line :
    (n : ℕ) (line more : List ℕ)
    → Plain line
    → length line < n
    → fgets n (line ++ 10 ∷ more) ≡ line ++ 10 ∷ []
unfolding fgets
fgets-line zero line more p h = absurd (omega arith)
fgets-line (suc n) [] more p h = refl
fgets-line (suc n) (b ∷ line) more p h =
    let other : (b == 10) ≡ false = ground (arith, p.0.1) in
    rw (other, fgets-line n line more p.1 (omega arith)) refl

until_zero-Plain : (line : List ℕ) → Plain line → until_zero line ≡ line
until_zero-Plain [] p = refl
until_zero-Plain (zero ∷ line) p = absurd (p.0.0 refl)
until_zero-Plain (suc b ∷ line) p = ap (◌∷◌ (suc b)) (until_zero-Plain line p.1)

until_zero-line : (line : List ℕ) → Plain line → until_zero (line ++ 10 ∷ []) ≡ line ++ 10 ∷ []
until_zero-line [] p = refl
until_zero-line (zero ∷ line) p = absurd (p.0.0 refl)
until_zero-line (suc b ∷ line) p = ap (◌∷◌ (suc b)) (until_zero-line line p.1)

get_or-line : (xs : List ℕ) (i : ℕ) → i ≡ length xs → get_or (xs ++ 10 ∷ []) i 0 ≡ 10
get_or-line [] zero e = refl
get_or-line [] (suc i) e = absurd (omega (arith, e))
get_or-line (x ∷ xs) zero e = absurd (omega (arith, e))
get_or-line (x ∷ xs) (suc i) e = get_or-line xs i (omega (arith, e))

last_byte-line : (line : List ℕ) → last_byte (line ++ 10 ∷ []) ≡ 10
last_byte-line line =
    get_or-line line (length (line ++ 10 ∷ []) - 1) (omega (arith, length-append line (10 ∷ [])))

sync_path-line :
    (line : List ℕ)
    → suc (suc (length line)) < file_name_len
    → sync_path (line ++ 10 ∷ []) ≡ ok (line ++ 10 ∷ 47 ∷ [])
unfolding sync_path
sync_path-line [] h = refl
sync_path-line (b ∷ line) h =
    let fits : ltb (suc (length (b ∷ (line ++ 10 ∷ [])))) file_name_len ≡ true =
      ground (arith, length-append line (10 ∷ [])) in
    rw (last_byte-line (b ∷ line), fits, append_assoc) refl

-- The path for one line: a slash is added where it is missing.
abbrev pub with_slash : CString → CString
with_slash line = if last_byte line == 47 then line else line ++ 47 ∷ []

sync_path-with_slash :
    (b : ℕ) (line : List ℕ)
    → suc (length (b ∷ line)) < file_name_len
    → sync_path (b ∷ line) ≡ ok (with_slash (b ∷ line))
unfolding sync_path
sync_path-with_slash b line h = ground arith

read_config_file-some :
    (bytes : List ℕ) (line : CString) (path : CString) (exists : CString → Bool)
    → until_zero (fgets (file_name_len - 1) bytes) ≡ line
    → sync_path line ≡ ok path
    → read_config_file (some bytes) exists ≡ ok (some path, if exists path then [] else path ∷ [])
unfolding read_config_file
read_config_file-some bytes line path exists e f =
    rw (subst (λ l. sync_path l ≡ ok path) (sym e) f) refl

-- A file with one line that is not empty and has no end of line gives the path of the line with a
-- slash at its end, and the folder is made exactly if it is not there.
pub read_config_file-with_slash :
    (b : ℕ) (line : List ℕ) (exists : CString → Bool)
    → Plain (b ∷ line)
    → suc (length (b ∷ line)) < file_name_len
    → read_config_file (some (b ∷ line)) exists
      ≡ ok (
        some (with_slash (b ∷ line)),
        if exists (with_slash (b ∷ line)) then [] else with_slash (b ∷ line) ∷ [],
      )
read_config_file-with_slash b line exists p h =
    read_config_file-some (b ∷ line) (b ∷ line) (with_slash (b ∷ line)) exists
      (ap until_zero (fgets-Plain (file_name_len - 1) (b ∷ line) p (omega arith))
        ∙ until_zero-Plain (b ∷ line) p)
      (sync_path-with_slash b line h)

-- With an end of line behind it, that character stays in the path, in front of the slash.
pub read_config_file-line :
    (line more : List ℕ) (exists : CString → Bool)
    → Plain line
    → suc (suc (length line)) < file_name_len
    → read_config_file (some (line ++ 10 ∷ more)) exists
      ≡ ok (
        some (line ++ 10 ∷ 47 ∷ []),
        if exists (line ++ 10 ∷ 47 ∷ []) then [] else (line ++ 10 ∷ 47 ∷ []) ∷ [],
      )
read_config_file-line line more exists p h =
    read_config_file-some (line ++ 10 ∷ more) (line ++ 10 ∷ []) (line ++ 10 ∷ 47 ∷ []) exists
      (ap until_zero (fgets-line (file_name_len - 1) line more p (omega arith))
        ∙ until_zero-line line p)
      (sync_path-line line h)
