-- ===== src/Blockchain/Lines.antt =====
-- x/nvx/keeper/blockchain.go, `splitLines`: the lines of a file.
use nuvex.Base.{ℕ, ◌≡◌, ◌≢◌, refl, ap, sym, ◌∙◌, true, false, List, [], ◌∷◌, ◌++◌, nat_eq, arith}
use mathlib.Core.List.{append_assoc, append-nil}

abbrev pub newline : ℕ
newline = 10

-- The pending line is put out unless it is empty: `i > start`, and `start < len(data)` at the end.
abbrev emit : List ℕ → List (List ℕ) → List (List ℕ)
emit [] lines = lines
emit (b ∷ line) lines = (b ∷ line) ∷ lines

-- `line` is `data[start:i]`, the bytes since the last newline.
split_from : List ℕ → List ℕ → List (List ℕ)
split_from line [] = emit line []
split_from line (b ∷ bytes) = elim (nat_eq b newline) [
  | true ↦ emit line (split_from [] bytes)
  | false ↦ split_from (line ++ b ∷ []) bytes
]

unfoldable pub split_lines : List ℕ → List (List ℕ)
unfolding split_from
split_lines bytes = split_from [] bytes

-- The line holds no newline.
abbrev pub IsPlain : List ℕ → Type 0
IsPlain [] = Unit {0}
IsPlain (b ∷ line) = (b ≢ newline) × IsPlain line

-- The lines are not empty and hold no newline.
abbrev pub AllPlain : List (List ℕ) → Type 0
AllPlain [] = Unit {0}
AllPlain (line ∷ lines) = (line ≢ []) × IsPlain line × AllPlain lines

-- Each line with its newline.
unfoldable pub join_lines : List (List ℕ) → List ℕ
join_lines [] = []
join_lines (line ∷ lines) = line ++ (newline ∷ join_lines lines)

split_from-line :
    (before line bytes : List ℕ)
    → IsPlain line
    → split_from before (line ++ (newline ∷ bytes)) ≡ emit (before ++ line) (split_from [] bytes)
unfolding split_from
split_from-line before [] bytes h = ap (λ l. emit l (split_from [] bytes)) (sym (append-nil before))
split_from-line before (b ∷ line) bytes h =
    let e : nat_eq b newline ≡ false = ground arith in
    rw (e, split_from)
      (split_from-line (before ++ b ∷ []) line bytes h.1
        ∙ ap (λ l. emit l (split_from [] bytes)) (append_assoc before (b ∷ []) line))

-- Splitting gives back the lines that were written, each with its newline.
pub split_lines-join_lines :
    (lines : List (List ℕ)) → AllPlain lines → split_lines (join_lines lines) ≡ lines
unfolding split_lines join_lines
split_lines-join_lines [] h = refl
split_lines-join_lines ([] ∷ lines) h = absurd (h.0 refl)
split_lines-join_lines ((b ∷ line) ∷ lines) h =
    split_from-line [] (b ∷ line) (join_lines lines) h.1
    ∙ ap (λ r. (b ∷ line) ∷ r) (split_lines-join_lines lines h.2)

pub join_lines-append :
    (xs ys : List (List ℕ)) → join_lines (xs ++ ys) ≡ join_lines xs ++ join_lines ys
unfolding join_lines
join_lines-append [] ys = refl
join_lines-append (x ∷ xs) ys =
    rw (join_lines-append xs ys) (sym (append_assoc x (newline ∷ join_lines xs) (join_lines ys)))
