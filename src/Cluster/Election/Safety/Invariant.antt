-- ===== src/Cluster/Election/Safety/Invariant.antt =====
-- internal/server/cluster_leader.go: what the steps of an election keep: how votes, winners
-- and leaders hang together.
use server_chat.Cluster.Election.Safety.Leaders.{
  on_missed-leader, on_vote-leader, on_health-leader, finish_election-won, finish_election-leader,
}
use mathlib.Core.List.{Memᴰ}
use mathlib.Core.List.Memᴰ
use server_chat.Common.{
  ℕ, suc, ◌+◌, ◌<◌, ◌≡◌, sym, ap, true, Bool-cases, inl, inr, List, [], ◌∷◌, All, ◌==◌, ==_iff,
  arith, length, none, some,
}
use server_chat.Cluster.Quorum.{mem, Distinct}
use server_chat.Cluster.Leader.{Node, Outcome, answered, call_failed, timed_out, expect_votes}
use server_chat.Cluster.Leader.Votes.{
  outcomes, asked, voters, voters-Distinct, mem-voters, count_votes-le,
}
use server_chat.Cluster.Election.{
  Ballot, Win, System, Step, Reach, here, next, IsFresh, ballot, win, update, wins_election, miss,
  begin, grant, refuse, elect, lose, heed,
}
use server_chat.Cluster.Election.Ballots.{IsFair, Step-IsFair, finish_election-term}

-- A majority of the nodes voted for the winner in its term.
abbrev pub IsBacked : ℕ → List Ballot → Win → Type 0
IsBacked n bs w =
    (vs : List ℕ) × Distinct vs
    × All (λ v. v < suc n) vs
    × All (λ v. Memᴰ (ballot v w.winner w.term) bs) vs
    × (suc n < length vs + length vs)

pub record IsSafe (n : ℕ) (s : System) : Type 0 where
  pub fair : IsFair s.nodes s.ballots
  pub backed : (w : Win) → Memᴰ w s.wins → IsBacked n s.ballots w
  pub led : (j l : ℕ) → (s.nodes j).leader ≡ some l → Memᴰ (win l (s.nodes j).term) s.wins

All-map : {P Q : ℕ → Type 0} (xs : List ℕ) → ((x : ℕ) → P x → Q x) → All P xs → All Q xs
All-map [] f a = tt
All-map (x ∷ xs) f a = (f x a.0, All-map xs f a.1)

pub All-at : (P : ℕ → Type 0) (x : ℕ) (xs : List ℕ) → mem x xs ≡ true → All P xs → P x
All-at P x [] m a = absurd (cc)
All-at P x (y ∷ xs) m a = elim (Bool-cases (x == y)) [
  | inl e ↦ (let q : x ≡ y = (==_iff x y).0 e in rw q a.0)
  | inr e ↦ All-at P x xs (rw e at m) a.1
]

IsBacked-cons :
    (n : ℕ) (b : Ballot) (bs : List Ballot) (w : Win) → IsBacked n bs w → IsBacked n (b ∷ bs) w
IsBacked-cons n b bs w h = (h.0, h.1, h.2, All-map h.0 (λ v m. Memᴰ.tail m) h.3, h.4)

-- One node changes; what it now follows has won.
led_update :
    (nodes : ℕ → Node) (ws : List Win) (i : ℕ) (c : Node)
    → ((l : ℕ) → c.leader ≡ some l → Memᴰ (win l c.term) ws)
    → ((j l : ℕ) → (nodes j).leader ≡ some l → Memᴰ (win l (nodes j).term) ws)
    → (j l : ℕ) → (update nodes i c j).leader ≡ some l
    → Memᴰ (win l (update nodes i c j).term) ws
led_update nodes ws i c new old j l h = elim (Bool-cases (i == j)) [
  | inl e ↦ rw e (new l (rw e at h))
  | inr e ↦ rw e (old j l (rw e at h))
]

none_led : (c : Node) (l : ℕ) → c.leader ≡ none → c.leader ≡ some l → ⊥
none_led c l p q = cc

-- A node that keeps its leader and its term.
same_led :
    (ws : List Win) (c : Node) (u l : ℕ)
    → (c.leader ≡ some l → Memᴰ (win l c.term) ws)
    → (c.leader ≡ some l) × (u ≡ c.term)
    → Memᴰ (win l u) ws
same_led ws c u l old h = rw (h.1) (old h.0)

voters-below :
    (n : ℕ) (calls : List (ℕ × Outcome))
    → All (λ j. j < suc n) (asked calls)
    → All (λ j. j < suc n) (voters calls)
voters-below n [] b = tt
voters-below n ((j, answered r) ∷ calls) b = elim (Bool-cases r.result) [
  | inl given ↦ rw given (b.0, voters-below n calls b.1)
  | inr refused ↦ rw refused (voters-below n calls b.1)
]
voters-below n ((j, call_failed) ∷ calls) b = voters-below n calls b.1
voters-below n ((j, timed_out) ∷ calls) b = voters-below n calls b.1

-- The majority that `electLeader` counts.
majority :
    (n i : ℕ) (calls : List (ℕ × Outcome)) (c : Node) (bs : List Ballot)
    → i < suc n
    → Distinct (i ∷ asked calls)
    → All (λ j. j < suc n) (asked calls)
    → All (λ j. Memᴰ (ballot j i c.term) bs) (i ∷ voters calls)
    → wins_election n calls c ≡ true
    → IsBacked n bs (win i c.term)
unfolding wins_election
majority n i calls c bs h d b m e = (
  i ∷ voters calls,
  (mem-voters i calls d.0, voters-Distinct calls d.1),
  (h, voters-below n calls b),
  m,
  ground (arith, count_votes-le c.term (expect_votes n) n 1 calls),
)

module _ (sig : List ℕ → ℕ) (timeout n : ℕ) where
  Step-led :
      {s t : System}
      → Step sig timeout n s t
      → IsSafe n s
      → (j l : ℕ) → (t.nodes j).leader ≡ some l
      → Memᴰ (win l (t.nodes j).term) t.wins
  Step-led {s = s} (miss i h e) f =
      led_update s.nodes s.wins i _
        (λ l p.
          same_led s.wins (s.nodes i) _ l (f.led i l) (on_missed-leader (s.nodes i) l timeout p))
        f.led
  Step-led {s = s} (begin i h e) f =
      led_update s.nodes s.wins i _
        (λ l p.
          same_led s.wins (s.nodes i) _ l (f.led i l) (on_missed-leader (s.nodes i) l timeout p))
        f.led
  Step-led {s = s} (grant req i h m e) f =
      led_update s.nodes s.wins i _
        (λ l p. same_led s.wins (s.nodes i) _ l (f.led i l) (on_vote-leader (s.nodes i) l req p))
        f.led
  Step-led {s = s} (refuse req i h e) f =
      led_update s.nodes s.wins i _
        (λ l p. same_led s.wins (s.nodes i) _ l (f.led i l) (on_vote-leader (s.nodes i) l req p))
        f.led
  Step-led {s = s} (elect i calls h d b m e) f =
      led_update s.nodes (win i (s.nodes i).term ∷ s.wins) i _
        (λ l p. rw (finish_election-term (s.nodes i) i n (outcomes calls)) (
          Memᴰ.head (
            ap (λ k. win k (s.nodes i).term)
              (sym (finish_election-won (s.nodes i) l i n calls e p)))))
        (λ j l p. Memᴰ.tail (f.led j l p))
  Step-led {s = s} (lose i calls h e) f =
      led_update s.nodes s.wins i _
        (λ l p. same_led s.wins (s.nodes i) _ l (f.led i l) (
          finish_election-leader (s.nodes i) l i n calls e p,
          finish_election-term (s.nodes i) i n (outcomes calls),
        ))
        f.led
  Step-led {s = s} (heed health i h m) f =
      led_update s.nodes s.wins i _
        (λ l p. elim (on_health-leader (s.nodes i) l sig health p) [
          | inl same ↦ same_led s.wins (s.nodes i) _ l (f.led i l) same
          | inr new ↦ rw (new.0, new.1) m
        ])
        f.led

  Step-IsBacked :
      {s t : System}
      → Step sig timeout n s t
      → IsSafe n s
      → (w : Win) → Memᴰ w t.wins
      → IsBacked n t.ballots w
  Step-IsBacked (miss i h e) f w m = f.backed w m
  Step-IsBacked {s = s} (begin i h e) f w m = IsBacked-cons n _ s.ballots w (f.backed w m)
  Step-IsBacked {s = s} (grant req i h b e) f w m = IsBacked-cons n _ s.ballots w (f.backed w m)
  Step-IsBacked (refuse req i h e) f w m = f.backed w m
  Step-IsBacked {s = s} (elect i calls h d b g e) f w (Memᴰ.head p) =
      rw p (majority n i calls (s.nodes i) s.ballots h d b g e)
  Step-IsBacked (elect i calls h d b g e) f w (Memᴰ.tail m) = f.backed w m
  Step-IsBacked (lose i calls h e) f w m = f.backed w m
  Step-IsBacked (heed health i h p) f w m = f.backed w m

  Step-IsSafe : {s t : System} → Step sig timeout n s t → IsSafe n s → IsSafe n t
  Step-IsSafe st f = record {
    fair = Step-IsFair st f.fair;
    backed = Step-IsBacked st f;
    led = Step-led st f;
  }

  IsFresh-IsSafe : {s : System} → IsFresh s → IsSafe n s
  IsFresh-IsSafe {s} h = record {
    fair = record {
      bounded = λ b m. absurd (Memᴰ.not-nil (rw h.no_ballots at m));
      single = λ v c c' u m. absurd (Memᴰ.not-nil (rw h.no_ballots at m));
    };
    backed = λ w m. absurd (Memᴰ.not-nil (rw h.no_wins at m));
    led = λ j l e. absurd (none_led (s.nodes j) l (h.no_leader j) e);
  }

  pub Reach-IsSafe : {s t : System} → IsFresh s → Reach sig timeout n s t → IsSafe n t
  Reach-IsSafe h here = IsFresh-IsSafe h
  Reach-IsSafe h (next r st) = Step-IsSafe st (Reach-IsSafe h r)
