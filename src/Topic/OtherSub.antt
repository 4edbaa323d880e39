-- ===== src/Topic/OtherSub.antt =====
-- internal/server/topic_sub_other.go: a subscriber invites a user, or changes what a subscriber is
-- given (`anotherUserSub`). The notices, pushes and plugins that follow are not part of it.
pub mod Grants
pub mod Owners
use server_chat.Common.{
  ℕ, ◌+◌, bit_and, bit_or, Bool, true, false, not, ◌&&◌, ◌||◌, Option, none, some, [], ◌∷◌, ◌==◌,
  if◌then◌else◌,
}
use server_chat.Common.Bits.{◌&^◌}
use server_chat.Common.Bytes.{Bytes}
use server_chat.Common.Result.{Result, ok, err, ◌>>=◌}
use server_chat.Access.{is_joiner, is_owner, is_admin, is_sharer, better_equal}
use server_chat.Access.Mode
use server_chat.Access.Text.{ModeErr, unmarshal_text}
use server_chat.Topic.{
  evict_user, TopicCat, Topic, PerUserData, no_data, or_no_data, is_grp, is_p2p, is_read_only,
  user_data, set_user, remove_user, mode,
}
use server_chat.Topic.Store.{StoreErr}

pub data OtherErr : Type 0 where
  not_sharer no_readers suspended not_admin not_owner beyond_own : OtherErr
  malformed : ModeErr → OtherErr
  member_limit no_user user_suspended not_joining store_failed owner_stays : OtherErr

-- The account of the target, with its default access to P2P topics where it is in use.
pub data OtherAccount : Type 0 where
  unreadable missing inactive : OtherAccount
  active : ℕ → OtherAccount

-- The request, and what the code asks other parts: the access of an authenticated user, the kind and
-- the size of the group, the stored mode of the target, its account, whether it is online, and the
-- success of a write. `mode` is empty where no mode is requested.
pub record OtherRequest : Type 0 where
  pub actor : ℕ
  pub target : ℕ
  pub as_chan : Bool
  pub mode : Bytes
  pub auth_access : ℕ
  pub p2p_access : ℕ
  pub is_large : Bool
  pub is_full : Bool
  pub stored_want : Result StoreErr (Option ℕ)
  pub account : OtherAccount
  pub is_online : Bool
  pub written : Bool

-- `modeGiven`, as it is requested.
abbrev pub parse_given : TopicCat → ℕ → Bytes → Result ModeErr ℕ
parse_given cat p2p_access [] = ok Mode.unset
parse_given cat p2p_access (c ∷ text) = unmarshal_text Mode.unset (c ∷ text) >>= λ given.
    ok (if is_p2p cat then bit_or (bit_and given p2p_access) Mode.approve else given)

module _ (t : Topic) (q : OtherRequest) where
  abbrev pub host_mode : ℕ
  host_mode = mode (user_data t q.actor)

  -- The guards on a requested mode.
  unfoldable pub check_given : ℕ → Result OtherErr ℕ
  check_given given =
      let is_set = not (given == Mode.unset) in
      let is_foreign = not (t.owner == q.actor) in
      if is_set && not (is_admin host_mode)
      then err not_admin
      else if is_owner given && is_foreign
      then err not_owner
      else if (is_set && is_foreign) && not (better_equal host_mode (given &^ Mode.owner))
      then err beyond_own
      else ok given

  abbrev pub requested_given : Result ModeErr ℕ → Result OtherErr ℕ
  requested_given (err e) = err (malformed e)
  requested_given (ok given) = check_given given

  -- All guards before the target is looked at.
  unfoldable pub check_host : Result OtherErr ℕ
  check_host =
      if not (is_sharer host_mode)
      then err not_sharer
      else if q.as_chan
      then err no_readers
      else if is_read_only t
      then err suspended
      else requested_given (parse_given t.cat q.p2p_access q.mode)

  abbrev pub account_want : OtherAccount → ℕ → Result OtherErr ℕ
  account_want unreadable given = err store_failed
  account_want missing given = err no_user
  account_want inactive given = err user_suspended
  account_want (active auth) given = ok (bit_and auth given)

  -- The mode that an invited user wants: the stored one, or the account's.
  abbrev pub invited_want : Result StoreErr (Option ℕ) → ℕ → Result OtherErr ℕ
  invited_want (err e) given = err store_failed
  invited_want (ok (some want)) given = ok want
  invited_want (ok none) given = account_want q.account given

  abbrev pub default_given : ℕ → ℕ
  default_given given = if given == Mode.unset then bit_or q.auth_access Mode.join else given

  abbrev pub new_data : ℕ → ℕ → PerUserData
  new_data want given = record no_data { mode_want = want; mode_given = given }

  -- The branch of a user without a subscription.
  unfoldable pub invite : ℕ → Result OtherErr PerUserData
  invite requested =
      let given = default_given requested in
      if is_grp t.cat && (not q.is_large && q.is_full)
      then err member_limit
      else (invited_want q.stored_want given >>= λ want.
          if not (is_joiner want)
          then err not_joining
          else if not q.written
          then err store_failed
          else ok (new_data want given))

  -- The branch of a subscriber.
  unfoldable pub regrant : PerUserData → ℕ → Result OtherErr PerUserData
  regrant pud given =
      if given == Mode.unset || given == pud.mode_given
      then ok pud
      else if t.owner == q.target && (not (is_owner given) || not (is_joiner given))
      then err owner_stays
      else if not q.written
      then err store_failed
      else ok (record pud { mode_given = given })

  abbrev pub is_subscriber : Option PerUserData → Bool
  is_subscriber none = false
  is_subscriber (some pud) = not pud.deleted

  unfoldable pub change_data : Option PerUserData → ℕ → Result OtherErr PerUserData
  change_data found given =
      if is_subscriber found then regrant (or_no_data found) given else invite given

  -- evictColdSubscriber, after evictUser, which leaves nobody online
  abbrev pub is_cold : PerUserData → Bool
  is_cold pud =
      (q.is_large && (not (is_joiner pud.mode_given) || not q.is_online))
      && not (is_owner (mode pud) || is_admin (mode pud))

  abbrev pub count_new : Bool → ℕ
  count_new subscriber = if not subscriber && is_grp t.cat then 1 else 0

  unfoldable pub with_data : PerUserData → Topic
  with_data pud =
      let users = set_user t.per_user q.target pud in
      record t {
        sub_cnt = t.sub_cnt + count_new (is_subscriber (t.per_user q.target));
        per_user =
            evict_user (is_cold pud)
              (evict_user (not (is_joiner pud.mode_given) && pud.is_chan) users q.target) q.target;
      }

  -- anotherUserSub: the topic after it, or the error, after which the topic is as it was
  unfoldable pub another_user_sub : Result OtherErr Topic
  another_user_sub =
      check_host >>= λ given. change_data (t.per_user q.target) given >>= λ pud. ok (with_data pud)
