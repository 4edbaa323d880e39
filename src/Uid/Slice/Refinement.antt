-- ===== src/Uid/Slice/Refinement.antt =====
-- server/store/types/uid.go: a slice of ids against a set of ids, over any sequence of operations.
use mathlib.Core.Path.{fun_ext}
use server_chat.Common.{
  ℕ, ◌≡◌, refl, ap, Bool, not, ◌&&◌, ◌||◌, List, [], ◌∷◌, ◌==◌, inl, inr, Bool-cases, arith,
}
use server_chat.Uid.Slice.{add, rem, contains}
use server_chat.Uid.Slice.Find.{IsAscending, member, find-eq}
use server_chat.Uid.Slice.Change.{
  add-eq, rem-eq, insert_id-IsAscending, member-insert_id, remove_id-IsAscending, member-remove_id,
}

pub data Op : Type 0 where
  add_op rem_op contains_op : ℕ → Op

-- The answers of a slice to a sequence of calls.
unfoldable pub step : Op → List ℕ → List ℕ × Bool
unfolding add rem contains
step (add_op x) us = add us x
step (rem_op x) us = rem us x
step (contains_op x) us = (us, contains us x)

unfoldable pub answers : List Op → List ℕ → List Bool
unfolding step
answers [] us = []
answers (op ∷ ops) us = (step op us).1 ∷ answers ops (step op us).0

-- The same calls on a set.
abbrev pub IdSet : Type 0
IdSet = ℕ → Bool

unfoldable pub set_step : Op → IdSet → IdSet × Bool
set_step (add_op x) ids = ((λ y. x == y || ids y), not (ids x))
set_step (rem_op x) ids = ((λ y. not (x == y) && ids y), ids x)
set_step (contains_op x) ids = (ids, ids x)

unfoldable pub set_answers : List Op → IdSet → List Bool
unfolding set_step
set_answers [] ids = []
set_answers (op ∷ ops) ids = (set_step op ids).1 ∷ set_answers ops (set_step op ids).0

contains-member : (us : List ℕ) (x : ℕ) → IsAscending us → contains us x ≡ member us x
unfolding contains
contains-member us x asc = ap (λ (p : ℕ × Bool). p.1) (find-eq us x asc)

-- One call: the slice stays ascending, and does to its ids what the set does.
record Follows (us : List ℕ) (op : Op) : Type 0 where
  ascending : IsAscending (step op us).0
  answer : (step op us).1 ≡ (set_step op (member us)).1
  same : (y : ℕ) → member (step op us).0 y ≡ (set_step op (member us)).0 y

module _ (us : List ℕ) (asc : IsAscending us) where
  add-Follows : (x : ℕ) → Follows us (add_op x)
  unfolding step set_step
  add-Follows x = elim (Bool-cases (member us x)) [
    | inl there ↦ record {
      ascending = rw (add-eq us x asc, there) asc;
      answer = rw (add-eq us x asc, there) (refl);
      same = λ y. rw (add-eq us x asc, there) (ground (arith, there));
    }
    | inr missing ↦ record {
      ascending = rw (add-eq us x asc, missing) (insert_id-IsAscending us x asc missing);
      answer = rw (add-eq us x asc, missing) (refl);
      same = λ y. rw (add-eq us x asc, missing) (member-insert_id us x y);
    }
  ]

  rem-Follows : (x : ℕ) → Follows us (rem_op x)
  unfolding step set_step
  rem-Follows x = elim (Bool-cases (member us x)) [
    | inl there ↦ record {
      ascending = rw (rem-eq us x asc, there) (remove_id-IsAscending us x asc);
      answer = rw (rem-eq us x asc, there) (refl);
      same = λ y. rw (rem-eq us x asc, there) (member-remove_id us x y asc there);
    }
    | inr missing ↦ record {
      ascending = rw (rem-eq us x asc, missing) asc;
      answer = rw (rem-eq us x asc, missing) (refl);
      same = λ y. rw (rem-eq us x asc, missing) (ground (arith, missing));
    }
  ]

  step-Follows : (op : Op) → Follows us op
  unfolding step set_step
  step-Follows (add_op x) = add-Follows x
  step-Follows (rem_op x) = rem-Follows x
  step-Follows (contains_op x) = record {
    ascending = asc;
    answer = contains-member us x asc;
    same = λ y. refl;
  }

-- The calls of an ascending slice, against those of the set of its ids.
answers-member :
    (ops : List Op) (us : List ℕ) → IsAscending us → answers ops us ≡ set_answers ops (member us)
unfolding answers set_answers
answers-member [] us asc = refl
answers-member (op ∷ ops) us asc =
    let one = step-Follows us asc op in
    let rest = answers-member ops (step op us).0 one.ascending in
    rw (one.answer, rest, fun_ext one.same) refl

-- Any sequence of `Add`, `Rem` and `Contains` on an ascending slice of ids gives the answers that a
-- set with the same ids gives.
pub answers-IsSet :
    (ops : List Op) (us : List ℕ) → IsAscending us → answers ops us ≡ set_answers ops (contains us)
answers-IsSet ops us asc = rw (fun_ext λ x. contains-member us x asc) (answers-member ops us asc)
