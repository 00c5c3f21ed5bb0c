-- ===== src/Utf8.antt =====
-- crates/burn-lm-inference/src/utf8.rs: the assembler that turns a byte stream into text. A text is
-- the list of its UTF-8 bytes, a byte a number below 256. `from_utf8` is the standard library's, with
-- what its error reports.
mod Tests
pub mod Pending
pub mod Scan
pub mod Chunks
pub mod Whole
use burn_lm.Prelude.{
  ℕ, zero, suc, ◌+◌, Bool, true, false, ◌&&◌, ◌||◌, List, [], ◌∷◌, ◌++◌, Option, none, some, leb,
  ltb, ◌==◌, if◌then◌else◌, length, take, drop,
}

-- How a byte sequence starts: with a character of so many bytes, with so many bytes that no later
-- byte can complete, or with a character that is cut off.
pub data Start : Type 0 where
  complete broken : ℕ → Start
  incomplete : Start

pub between : ℕ → ℕ → ℕ → Bool
between low high byte = leb low byte && leb byte high

-- The continuation bytes that are still expected, `seen` bytes of the character being read.
pub continue_with : ℕ → ℕ → List ℕ → Start
unfolding between
continue_with zero seen bytes = complete seen
continue_with (suc n) seen [] = incomplete
continue_with (suc n) seen (byte ∷ bytes) =
    let rest = continue_with n (suc seen) bytes in
    if between 128 191 byte then rest else broken seen

-- The second byte of a character, in its own range, and `more` continuation bytes after it.
pub second : ℕ → ℕ → ℕ → List ℕ → Start
unfolding between continue_with
second low high more [] = incomplete
second low high more (byte ∷ bytes) =
    if between low high byte then continue_with more 2 bytes else broken 1

pub start_of : ℕ → List ℕ → Start
unfolding between second
start_of first rest =
    if ltb first 128
    then complete 1
    else if between 194 223 first
    then second 128 191 0 rest
    else if first == 224
    then second 160 191 1 rest
    else if first == 237
    then second 128 159 1 rest
    else if between 225 239 first
    then second 128 191 1 rest
    else if first == 240
    then second 144 191 2 rest
    else if between 241 243 first
    then second 128 191 2 rest
    else if first == 244
    then second 128 143 2 rest
    else broken 1

-- `Utf8Error::error_len`, or no error.
pub data Verdict : Type 0 where
  valid cut_off : Verdict
  invalid : ℕ → Verdict

-- `from_utf8`: `valid_up_to`, and how it ends. The fuel is the number of bytes.
pub from_utf8 : ℕ → List ℕ → ℕ × Verdict
unfolding start_of
from_utf8 fuel [] = (0, valid)
from_utf8 zero (byte ∷ bytes) = (0, cut_off)
from_utf8 (suc fuel) (byte ∷ bytes) = elim (start_of byte bytes) as (λ _. ℕ × Verdict) [
  | complete n ↦ let rest = from_utf8 fuel (drop n (byte ∷ bytes)) in (n + rest.0, rest.1)
  | broken n ↦ (0, invalid n)
  | incomplete ↦ (0, cut_off)
]

abbrev pub replacement : List ℕ
replacement = 239 ∷ 191 ∷ 189 ∷ []

-- The loop of `push`: what it appends to `out`, and what stays pending. Each turn but the last
-- drains a byte at least, so one turn more than there are bytes is enough.
pub push_loop : ℕ → List ℕ → List ℕ × List ℕ
unfolding from_utf8
push_loop zero pending = ([], pending)
push_loop (suc fuel) pending =
    let checked = from_utf8 (length pending) pending in
    let text = take (checked.0) pending in
    elim checked.1 as (λ _. List ℕ × List ℕ) [
      | valid ↦ (text, [])
      | invalid len ↦
          let rest = push_loop fuel (drop (checked.0 + len) pending) in
          (text ++ replacement ++ rest.0, rest.1)
      | cut_off ↦ (text, drop (checked.0) pending)
    ]

-- `None` for an empty text.
pub text_of : List ℕ → Option (List ℕ)
text_of [] = none
text_of (byte ∷ bytes) = some (byte ∷ bytes)

-- The text that is now complete, and the bytes that are held back.
unfoldable pub push : List ℕ → List ℕ → Option (List ℕ) × List ℕ
unfolding push_loop text_of
push pending bytes =
    let all = pending ++ bytes in
    let (out, left) = push_loop (length all + 1) all in (text_of out, left)

-- `from_utf8_lossy`: a replacement for each maximal part that is not a character, and for a
-- character that is cut off.
pub lossy : ℕ → List ℕ → List ℕ
unfolding from_utf8
lossy zero bytes = []
lossy (suc fuel) bytes =
    let checked = from_utf8 (length bytes) bytes in
    let text = take (checked.0) bytes in
    elim checked.1 as (λ _. List ℕ) [
      | valid ↦ text
      | invalid len ↦ text ++ replacement ++ lossy fuel (drop (checked.0 + len) bytes)
      | cut_off ↦ text ++ replacement
    ]

unfoldable pub finish : List ℕ → Option (List ℕ)
unfolding lossy
finish pending = text_of (lossy (length pending + 1) pending)
