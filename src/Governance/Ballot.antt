-- ===== src/Governance/Ballot.antt =====
-- The votes of a proposal: the sums of their powers, and one vote for each voter.
use nuvex.Base.{
  nat_key, ℕ, ◌+◌, ◌<◌, ◌≡◌, refl, none, some, List, [], ◌∷◌, ◌++◌, String, arith, if◌then◌else◌,
  string_key, ◌==◌, ==_iff, false,
}
use nuvex.Base.Word.{word}
use nuvex.Governance.{Vote, find_vote, remove_vote}

-- What a vote counts for an option.
abbrev pub weight : String → Vote → ℕ
weight option v = if v.option == option then v.power else 0

abbrev pub sum_for : String → List Vote → ℕ
sum_for option [] = 0
sum_for option (v ∷ votes) = weight option v + sum_for option votes

abbrev pub sum_all : List Vote → ℕ
sum_all [] = 0
sum_all (v ∷ votes) = v.power + sum_all votes

-- The powers are of 64 bits, and no voter has two votes.
abbrev pub IsBallot : List Vote → Type 0
IsBallot [] = Unit {0}
IsBallot (v ∷ votes) = (v.power < word) × (find_vote v.voter votes ≡ none) × IsBallot votes

pub sum_for-append :
    (option : String) (votes : List Vote) (v : Vote)
    → sum_for option (votes ++ v ∷ []) ≡ sum_for option votes + weight option v
sum_for-append option [] v = omega arith
sum_for-append option (u ∷ votes) v = omega (arith, sum_for-append option votes v)

pub sum_all-append :
    (votes : List Vote) (v : Vote) → sum_all (votes ++ v ∷ []) ≡ sum_all votes + v.power
sum_all-append [] v = omega arith
sum_all-append (u ∷ votes) v = omega (arith, sum_all-append votes v)

pub sum_for-remove_vote :
    (option voter : String) (votes : List Vote) (v : Vote)
    → find_vote voter votes ≡ some v
    → sum_for option votes ≡ sum_for option (remove_vote voter votes) + weight option v
unfolding find_vote remove_vote
sum_for-remove_vote option voter [] v e = cc
sum_for-remove_vote option voter (u ∷ votes) v e =
    ground (arith, sum_for-remove_vote option voter votes v)

pub sum_all-remove_vote :
    (voter : String) (votes : List Vote) (v : Vote)
    → find_vote voter votes ≡ some v
    → sum_all votes ≡ sum_all (remove_vote voter votes) + v.power
unfolding find_vote remove_vote
sum_all-remove_vote voter [] v e = cc
sum_all-remove_vote voter (u ∷ votes) v e = ground (arith, sum_all-remove_vote voter votes v)

pub find_vote-power :
    (voter : String) (votes : List Vote) (v : Vote)
    → IsBallot votes
    → find_vote voter votes ≡ some v
    → v.power < word
unfolding find_vote
find_vote-power voter [] v b e = cc
find_vote-power voter (u ∷ votes) v b e = ground (arith, find_vote-power voter votes v b.2)

find_vote-remove_vote-none :
    (other voter : String) (votes : List Vote)
    → find_vote other votes ≡ none
    → find_vote other (remove_vote voter votes) ≡ none
unfolding find_vote remove_vote
find_vote-remove_vote-none other voter [] e = refl
find_vote-remove_vote-none other voter (u ∷ votes) e =
    ground (arith, find_vote-remove_vote-none other voter votes)

pub remove_vote-IsBallot :
    (voter : String) (votes : List Vote) → IsBallot votes → IsBallot (remove_vote voter votes)
unfolding remove_vote
remove_vote-IsBallot voter [] b = tt
remove_vote-IsBallot voter (u ∷ votes) b =
    ground
      (arith, find_vote-remove_vote-none u.voter voter votes, remove_vote-IsBallot voter votes b.2)

-- With no second vote of a voter, removing the first leaves none.
pub find_vote-remove_vote_own :
    (voter : String) (votes : List Vote)
    → IsBallot votes
    → find_vote voter (remove_vote voter votes) ≡ none
unfolding find_vote remove_vote
find_vote-remove_vote_own voter [] b = refl
find_vote-remove_vote_own voter (u ∷ votes) b =
    ground (arith, ==_iff u.voter voter, find_vote-remove_vote_own voter votes b.2)

find_vote-append_ne :
    (voter : String) (votes : List Vote) (v : Vote)
    → find_vote voter votes ≡ none
    → (v.voter == voter) ≡ false
    → find_vote voter (votes ++ v ∷ []) ≡ none
unfolding find_vote
find_vote-append_ne voter [] v e d = ground arith
find_vote-append_ne voter (u ∷ votes) v e d = ground (arith, find_vote-append_ne voter votes v)

pub append-IsBallot :
    (votes : List Vote) (v : Vote)
    → v.power < word
    → IsBallot votes
    → find_vote v.voter votes ≡ none
    → IsBallot (votes ++ v ∷ [])
unfolding find_vote
append-IsBallot [] v h b e = (h, refl, tt)
append-IsBallot (u ∷ votes) v h b e = ground (
  arith,
  ==_iff u.voter v.voter,
  ==_iff v.voter u.voter,
  find_vote-append_ne u.voter votes v b.1,
  append-IsBallot votes v h b.2,
)
