-- ===== src/Topic/FirstSub.antt =====
-- internal/server/topic_sub_self.go: a user subscribes who has no subscription in the cache, or a
-- deleted one (`thisUserSub`). The notices, pushes and plugins that follow are not part of it.
pub mod Newcomers
pub mod Banned
use server_chat.Common.{
  ℕ, bit_and, bit_or, Bool, true, false, not, ◌&&◌, ◌||◌, Option, none, some, ◌==◌, if◌then◌else◌,
}
use server_chat.Common.Result.{Result, ok, err, ◌>>=◌}
use server_chat.Access.{is_joiner}
use server_chat.Access.Mode
use server_chat.Topic.{
  evict_user, Topic, TopicCat, p2p, sys, PerUserData, or_no_data, is_grp, set_user, remove_user,
}
use server_chat.Topic.Roles.{member_mode}
use server_chat.Topic.Store.{StoreErr}

-- types.Subscription, as it is stored, also after its deletion.
pub record StoredSub : Type 0 where
  pub mode_want : ℕ
  pub mode_given : ℕ
  pub is_deleted : Bool

-- The request with its requested mode, and what the code asks other parts: whether the user may join
-- an official topic, the validity and the uses of the invitation, the kind and the size of the group, the stored
-- subscription, and the success of the write.
pub record FirstRequest : Type 0 where
  pub uid : ℕ
  pub as_chan : Bool
  pub mode_want : ℕ
  pub has_invite : Bool
  pub is_root : Bool
  pub default_access : ℕ
  pub p2p_access : ℕ
  pub join_allowed : Bool
  pub validate_invite : Bool
  pub consume_invite : Bool
  pub is_large : Bool
  pub is_full : Bool
  pub stored : Result StoreErr (Option StoredSub)
  pub written : Bool

pub data FirstErr : Type 0 where
  bad_invite join_refused used_invite member_limit not_root not_joiner store_failed : FirstErr

-- The data of the user with the new modes, the subscription that was read, and `oldWant`.
pub record Draft : Type 0 where
  pub user : PerUserData
  pub sub : Option StoredSub
  pub old_want : ℕ

module _ (q : FirstRequest) where
  -- A requested mode, or another one where none is requested.
  abbrev pub want_or : ℕ → ℕ
  want_or other = if q.mode_want == Mode.unset then other else q.mode_want

  unfoldable pub draft_p2p : PerUserData → Draft
  draft_p2p pud = record {
    user = record pud {
      mode_want = bit_or (bit_and (want_or pud.mode_want) q.p2p_access) Mode.approve;
    };
    sub = none;
    old_want = Mode.no_access;
  }

  unfoldable pub draft_sys : PerUserData → Result FirstErr Draft
  draft_sys pud =
      if not q.is_root
      then err not_root
      else ok (record {
        user = record pud {
          mode_want =
              if q.mode_want == Mode.unset
              then Mode.c_sys
              else bit_or (bit_or (bit_and q.mode_want Mode.c_sys) Mode.write) Mode.join;
          mode_given = Mode.c_sys;
        };
        sub = none;
        old_want = Mode.no_access;
      })

  abbrev pub reader_want : ℕ → ℕ
  reader_want old =
      if q.mode_want == Mode.unset
      then old
      else bit_or (bit_or (bit_and q.mode_want Mode.c_chn_reader) Mode.read) Mode.join

  -- A reader of a channel.
  abbrev pub draft_reader : PerUserData → Result StoreErr (Option StoredSub) → Result FirstErr Draft
  draft_reader pud (err e) = err store_failed
  draft_reader pud (ok none) = ok (record {
    user = record pud {
      is_chan = true;
      mode_want = reader_want Mode.c_chn_reader;
      mode_given = Mode.c_chn_reader;
    };
    sub = none;
    old_want = Mode.c_chn_reader;
  })
  draft_reader pud (ok (some sub)) = ok (record {
    user = record pud {
      is_chan = true;
      mode_want = reader_want sub.mode_want;
      mode_given = sub.mode_given;
    };
    sub = some sub;
    old_want = sub.mode_want;
  })

  abbrev pub given_or : ℕ → ℕ
  given_or given = if given == Mode.unset then q.default_access else given

  abbrev pub member_data : PerUserData → ℕ → Bool → PerUserData
  member_data pud given true = record pud { mode_want = member_mode; mode_given = member_mode }
  member_data pud given false = record pud {
    mode_want = want_or q.default_access;
    mode_given = given_or given;
  }

  abbrev pub stored_given : Option StoredSub → ℕ
  stored_given none = Mode.unset
  stored_given (some sub) = sub.mode_given

  -- A member of a group, or a user of the own topics. A deleted subscription of the cache keeps what
  -- it was given.
  abbrev pub draft_member :
      Bool → Option PerUserData → Result StoreErr (Option StoredSub) → Result FirstErr Draft
  draft_member invited (some pud) stored = ok (record {
    user = member_data pud pud.mode_given invited;
    sub = none;
    old_want = Mode.no_access;
  })
  draft_member invited none (err e) = err store_failed
  draft_member invited none (ok sub) = ok (record {
    user = member_data (or_no_data none) (stored_given sub) invited;
    sub = sub;
    old_want = Mode.no_access;
  })

  unfoldable pub draft_for : TopicCat → Option PerUserData → Result FirstErr Draft
  draft_for p2p found = ok (draft_p2p (or_no_data found))
  draft_for sys found = draft_sys (or_no_data found)
  draft_for cat found =
      if q.as_chan
      then draft_reader (or_no_data found) q.stored
      else draft_member (q.has_invite && is_grp cat) found q.stored

  -- The guards for a group.
  unfoldable pub check_group : Topic → Result FirstErr (Option PerUserData)
  check_group t =
      if (is_grp t.cat && q.has_invite) && not q.validate_invite
      then err bad_invite
      else if is_grp t.cat && not q.join_allowed
      then err join_refused
      else if (is_grp t.cat && q.has_invite) && not q.consume_invite
      then err used_invite
      else if (is_grp t.cat && not q.as_chan) && (not q.is_large && q.is_full)
      then err member_limit
      else ok (t.per_user q.uid)

  -- Whether the subscription is created.
  abbrev pub is_new : Option StoredSub → Bool
  is_new none = true
  is_new (some sub) = sub.is_deleted

  abbrev pub needs_write : Draft → Bool
  needs_write d = is_new d.sub || (q.as_chan && not (d.user.mode_want == d.old_want))

  abbrev pub restored : PerUserData → PerUserData
  restored pud =
      if pud.deleted
      then record pud { deleted = false; del_id = 0; read_id = 0; recv_id = 0 }
      else pud

  unfoldable pub save_draft : Draft → Result FirstErr PerUserData
  save_draft d =
      if not (is_joiner d.user.mode_given)
      then err not_joiner
      else if needs_write d && not q.written
      then err store_failed
      else ok (restored d.user)

  unfoldable pub with_newcomer : Topic → PerUserData → Topic
  with_newcomer t pud = record t {
    per_user =
        evict_user (not (is_joiner pud.mode_want) && pud.is_chan) (set_user t.per_user q.uid pud)
          q.uid;
  }

  -- thisUserSub, for a user without a subscription: the topic after it, or the error, after which
  -- the topic is as it was
  unfoldable pub first_sub : Topic → Result FirstErr Topic
  first_sub t = check_group t >>= λ found.
      draft_for t.cat found >>= λ d. save_draft d >>= λ pud. ok (with_newcomer t pud)
