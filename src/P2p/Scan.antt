-- ===== src/P2p/Scan.antt =====
-- x/nvx/keeper/p2p.go: `readMessage`. A connection is the pieces that its reads return, up to an end
-- or a time-out; each call makes a scanner of its own, whose buffer is gone after the call.
use nuvex.Base.{
  ℕ, ◌≡◌, ◌≢◌, refl, false, Option, none, some, List, [], ◌∷◌, ◌++◌, nat_eq, nat_eq_iff, leb,
  length, arith, if◌then◌else◌,
}
use nuvex.P2p.{P2pMessage, Wire}

-- The bytes before the first newline, if there is one.
unfoldable pub before_newline : List ℕ → Option (List ℕ)
before_newline [] = none
before_newline (b ∷ bs) =
    let rest = before_newline bs in
    if nat_eq b 10 then some [] else elim rest [ none ↦ none | some line ↦ some (b ∷ line) ]

-- A carriage return at the end is dropped.
unfoldable pub drop_cr : List ℕ → List ℕ
drop_cr [] = []
drop_cr (b ∷ []) = if nat_eq b 13 then [] else b ∷ []
drop_cr (b ∷ c ∷ bs) = b ∷ drop_cr (c ∷ bs)

-- `Scan`: a line that fills the buffer of 65,536 bytes is an error, and at the end what is left is a
-- line if it is not empty. The second part is what later calls can read.
unfoldable pub scan : List ℕ → List (List ℕ) → Option (List ℕ) × List (List ℕ)
unfolding before_newline drop_cr
scan buffer [] = ((if nat_eq (length buffer) 0 then none else some (drop_cr buffer)), [])
scan buffer (piece ∷ pieces) =
    let longer = scan (buffer ++ piece) pieces in
    elim (before_newline (buffer ++ piece)) [
      | some line ↦ (some (drop_cr line), pieces)
      | none ↦ if leb 65_536 (length (buffer ++ piece)) then (none, pieces) else longer
    ]

unfoldable pub read_message : Wire → List (List ℕ) → Option P2pMessage × List (List ℕ)
unfolding scan
read_message wire pieces =
    let (line, rest) = scan [] pieces in
    (elim line [ none ↦ none | some bytes ↦ wire.unmarshal_message bytes ], rest)

abbrev pub NoNewline : List ℕ → Type 0
NoNewline [] = Unit {0}
NoNewline (b ∷ bs) = (b ≢ 10) × NoNewline bs

before_newline-append :
    (line more : List ℕ) → NoNewline line → before_newline (line ++ 10 ∷ more) ≡ some line
unfolding before_newline
before_newline-append [] more h = refl
before_newline-append (b ∷ line) more h =
    let other : nat_eq b 10 ≡ false = ground (arith, nat_eq_iff b 10) in
    rw (other, before_newline-append line more h.1)

-- A message is read from the line that a piece starts with, and all that the piece holds after the
-- newline, further messages among it, is lost: later calls read on from the next piece.
pub read_message_drops :
    (wire : Wire) (line more : List ℕ) (pieces : List (List ℕ))
    → NoNewline line
    → read_message wire ((line ++ 10 ∷ more) ∷ pieces)
      ≡ (wire.unmarshal_message (drop_cr line), pieces)
unfolding read_message
read_message_drops wire line more pieces h =
    simp (read_message, scan, before_newline-append line more h)
