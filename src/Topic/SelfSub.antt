-- ===== src/Topic/SelfSub.antt =====
-- internal/server/topic_sub_self.go: a subscriber changes the own subscription (`thisUserSub`, for a
-- user whose subscription is in the cache and not deleted). The notices, pushes and plugins that
-- follow a change are not part of it.
pub mod Owners
use server_chat.Common.{
  ℕ, bit_and, bit_or, Bool, true, false, not, ◌&&◌, ◌||◌, Option, none, some, List, [], ◌∷◌, ◌==◌,
  if◌then◌else◌,
}
use server_chat.Common.Bits.{◌&^◌}
use server_chat.Common.Bytes.{Bytes}
use server_chat.Common.Result.{Result, ok, err}
use server_chat.Access.{is_joiner}
use server_chat.Access.Mode
use server_chat.Access.Text.{ModeErr, unmarshal_text}
use server_chat.Topic.{evict_user, Topic, PerUserData, is_grp, user_data, set_user, remove_user}
use server_chat.Topic.Roles.{member_mode}
use server_chat.Topic.SelfAccess.{SelfInput, SelfErr, Transition, plan_existing_self}

-- The request, with the access that the topic gives by default at the user's level, and whether the
-- private data are sent or cleared. `want` is empty where no mode is requested.
pub record SelfRequest : Type 0 where
  pub uid : ℕ
  pub as_chan : Bool
  pub want : Bytes
  pub has_invite : Bool
  pub sets_private : Bool
  pub default_access : ℕ
  pub p2p_access : ℕ

-- A change of the store: the modes of a subscription that are written, or the topic's owner.
pub data Write : Type 0 where
  update_sub : ℕ → Option ℕ → Option ℕ → Write
  owner_change : ℕ → Write

-- What other parts answer: the validity of the invitation, its uses, and each write.
pub record SelfServices : Type 0 where
  pub validate_invite : Bool
  pub consume_invite : Bool
  pub write : Write → Bool

pub data SubErr : Type 0 where
  malformed : ModeErr → SubErr
  bad_invite used_invite use_other store_failed banned : SubErr
  refused : SelfErr → SubErr

-- The state after the request, the writes that succeeded, and the error, if any.
pub record SelfResult : Type 0 where
  pub topic : Topic
  pub writes : List Write
  pub failure : Option SubErr

-- `modeWant`
abbrev pub parse_want : Bytes → Result ModeErr ℕ
parse_want [] = ok Mode.unset
parse_want (c ∷ want) = unmarshal_text Mode.unset (c ∷ want)

-- A mode as it is written, nothing if it is the same.
abbrev pub changed : ℕ → ℕ → Option ℕ
changed old new = if new == old then none else some new

module _ (sv : SelfServices) (t : Topic) (q : SelfRequest) (pud : PerUserData) where
  abbrev pub failed : SubErr → SelfResult
  failed e = record { topic = t; writes = []; failure = some e }

  -- A valid invitation brings back a user who was removed by a ban.
  unfoldable pub readmit : SelfResult
  readmit =
      let update = update_sub q.uid (some member_mode) (some member_mode) in
      if not sv.consume_invite
      then failed used_invite
      else if not (sv.write update)
      then failed store_failed
      else record {
        topic = record t {
          per_user =
              set_user t.per_user q.uid
                (record pud { mode_want = member_mode; mode_given = member_mode });
        };
        writes = update ∷ [];
        failure = none;
      }

  abbrev pub with_modes : Transition → PerUserData
  with_modes tr = record pud { mode_want = tr.want; mode_given = tr.given }

  -- The end of the function, after the writes: the cache, and the tests of the new modes.
  unfoldable pub conclude : Topic → Transition → List Write → SelfResult
  conclude t1 tr writes =
      let users = set_user t1.per_user q.uid (with_modes tr) in
      if not (is_joiner tr.want)
      then record {
        topic = record t1 { per_user = evict_user pud.is_chan users q.uid };
        writes = writes;
        failure = none;
      }
      else record {
        topic = record t1 { per_user = users };
        writes = writes;
        failure = if is_joiner tr.given then none else some banned;
      }

  abbrev pub strip : PerUserData → PerUserData
  strip old = record old {
    mode_want = old.mode_want &^ Mode.owner;
    mode_given = old.mode_given &^ Mode.owner;
  }

  -- The old owner loses the permission first.
  unfoldable pub change_owner : Transition → List Write → SelfResult
  change_owner tr writes =
      let old = strip (user_data t t.owner) in
      let update = update_sub t.owner (some old.mode_want) (some old.mode_given) in
      if not (sv.write update)
      then record { topic = t; writes = writes; failure = some store_failed }
      else if not (sv.write (owner_change q.uid))
      then record { topic = t; writes = update ∷ writes; failure = some store_failed }
      else conclude (record t { per_user = set_user t.per_user t.owner old; owner = q.uid }) tr
          (owner_change q.uid ∷ update ∷ writes)

  -- The part under `ownerChange`, or the end at once.
  abbrev pub proceed : Bool → Transition → List Write → SelfResult
  proceed true tr writes = change_owner tr writes
  proceed false tr writes = conclude t tr writes

  -- The write of what has changed.
  unfoldable pub apply_transition : Transition → SelfResult
  apply_transition tr =
      let update =
        update_sub q.uid (changed pud.mode_want tr.want) (changed pud.mode_given tr.given) in
      if q.sets_private || (not (tr.want == pud.mode_want) || not (tr.given == pud.mode_given))
      then (if not (sv.write update)
          then failed store_failed
          else proceed tr.owner_change tr (update ∷ []))
      else proceed tr.owner_change tr []

  abbrev pub self_input : ℕ → SelfInput
  self_input requested = record {
    category = t.cat;
    is_topic_owner = t.owner == q.uid;
    old_want = pud.mode_want;
    old_given = pud.mode_given;
    requested = requested;
    default_access = q.default_access;
    p2p_access = q.p2p_access;
  }

  unfoldable pub change_modes : Result SelfErr Transition → SelfResult
  change_modes (err e) = failed (refused e)
  change_modes (ok tr) = apply_transition tr

  unfoldable pub self_sub : Result ModeErr ℕ → SelfResult
  self_sub (err e) = failed (malformed e)
  self_sub (ok mode_want) =
      let has_invite = q.has_invite && is_grp t.cat in
      if has_invite && not sv.validate_invite
      then failed bad_invite
      else if has_invite && not (is_joiner pud.mode_given)
      then readmit
      else if not pud.is_chan && q.as_chan
      then failed use_other
      else change_modes (plan_existing_self (self_input mode_want))

  -- thisUserSub, for a user with a subscription
  abbrev pub this_user_sub : SelfResult
  this_user_sub = self_sub (parse_want q.want)
