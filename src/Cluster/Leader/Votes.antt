-- ===== src/Cluster/Leader/Votes.antt =====
-- What the count of `electLeader` says of the answers that it received.
use server_chat.Common.{
  ℕ, zero, suc, ◌+◌, ◌≤◌, ◌≡◌, refl, false, Bool-cases, inl, inr, List, [], ◌∷◌, arith, length,
  if◌then◌else◌,
}
use server_chat.Cluster.Quorum.{mem, Distinct}
use server_chat.Cluster.Leader.{Outcome, answered, call_failed, timed_out, count_votes}

-- The calls of an election: the node that is asked, and what came of it.
abbrev pub outcomes : List (ℕ × Outcome) → List Outcome
outcomes [] = []
outcomes ((j, o) ∷ calls) = o ∷ outcomes calls

abbrev pub asked : List (ℕ × Outcome) → List ℕ
asked [] = []
asked ((j, o) ∷ calls) = j ∷ asked calls

-- The nodes that voted for the candidate.
abbrev pub voters : List (ℕ × Outcome) → List ℕ
voters [] = []
voters ((j, answered r) ∷ calls) = if r.result then j ∷ voters calls else voters calls
voters ((j, call_failed) ∷ calls) = voters calls
voters ((j, timed_out) ∷ calls) = voters calls

-- The count never passes the votes that were given.
pub count_votes-le :
    (term expect left votes : ℕ) (calls : List (ℕ × Outcome))
    → count_votes term expect left votes (outcomes calls) ≤ votes + length (voters calls)
unfolding count_votes
count_votes-le term expect zero votes calls = omega arith
count_votes-le term expect (suc left) votes [] = omega arith
count_votes-le term expect (suc left) votes ((j, answered r) ∷ calls) = ground (
  arith,
  count_votes-le term expect left (votes + 1) calls,
  count_votes-le term expect left votes calls,
)
count_votes-le term expect (suc left) votes ((j, call_failed) ∷ calls) =
    ground (arith, count_votes-le term expect left votes calls)
count_votes-le term expect (suc left) votes ((j, timed_out) ∷ calls) = omega arith

-- Who was not asked has not voted.
pub mem-voters :
    (x : ℕ) (calls : List (ℕ × Outcome))
    → mem x (asked calls) ≡ false
    → mem x (voters calls) ≡ false
mem-voters x [] h = refl
mem-voters x ((j, answered r) ∷ calls) h = ground (arith, mem-voters x calls)
mem-voters x ((j, call_failed) ∷ calls) h = mem-voters x calls (ground arith)
mem-voters x ((j, timed_out) ∷ calls) h = mem-voters x calls (ground arith)

pub voters-Distinct :
    (calls : List (ℕ × Outcome)) → Distinct (asked calls) → Distinct (voters calls)
voters-Distinct [] d = tt
voters-Distinct ((j, answered r) ∷ calls) d = elim (Bool-cases r.result) [
  | inl given ↦ rw given (mem-voters j calls d.0, voters-Distinct calls d.1)
  | inr refused ↦ rw refused (voters-Distinct calls d.1)
]
voters-Distinct ((j, call_failed) ∷ calls) d = voters-Distinct calls d.1
voters-Distinct ((j, timed_out) ∷ calls) d = voters-Distinct calls d.1
