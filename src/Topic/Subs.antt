-- ===== src/Topic/Subs.antt =====
-- server/store/store_subs.go, as a topic uses it: the subscriptions of one group and of
-- the channel of its readers, with the behaviour that the database adapters document.
use server_chat.Common.{
  ℕ, Bool, true, false, not, ◌&&◌, Option, none, some, ◌==◌, ◌≡◌, if◌then◌else◌,
}
use server_chat.Common.Result.{Result, ok}
use server_chat.Topic.Store.{StoreErr}

-- types.Subscription, as far as the roles need it.
pub record Subscription : Type 0 where
  pub mode_want : ℕ
  pub mode_given : ℕ

-- The subscriptions of the group (`false`) and of its channel (`true`), by user.
abbrev pub Roster : Type 0
Roster = Bool → ℕ → Option Subscription

abbrev pub same_kind : Bool → Bool → Bool
same_kind true other = other
same_kind false other = not other

-- The roster with another row of one user.
abbrev pub with_row : Roster → Bool → ℕ → Option Subscription → Roster
with_row rows chan uid row other_chan other =
    if same_kind chan other_chan && (uid == other) then row else rows other_chan other

-- An update changes a row that is there.
abbrev pub updated : Option Subscription → Subscription → Option Subscription
updated none new = none
updated (some old) new = some new

pub record SubStore : Type 1 where
  pub State : Type 0
  pub rows : State → Roster
  -- Get, without the deleted ones; Create, Update of both modes, and Delete. `true` is success.
  pub get : State → Bool → ℕ → Result StoreErr (Option Subscription)
  pub create : State → Bool → ℕ → Subscription → State × Bool
  pub update : State → Bool → ℕ → Subscription → State × Bool
  pub delete : State → Bool → ℕ → State × Bool
  pub get_ok :
      (s : State) (chan : Bool) (uid : ℕ) {found : Option Subscription}
      → get s chan uid ≡ ok found
      → found ≡ rows s chan uid
  pub create_ok :
      (s : State) (chan : Bool) (uid : ℕ) (new : Subscription)
      → (create s chan uid new).1 ≡ true
      → rows (create s chan uid new).0 ≡ with_row (rows s) chan uid (some new)
  pub create_err :
      (s : State) (chan : Bool) (uid : ℕ) (new : Subscription)
      → (create s chan uid new).1 ≡ false
      → rows (create s chan uid new).0 ≡ rows s
  pub update_ok :
      (s : State) (chan : Bool) (uid : ℕ) (new : Subscription)
      → (update s chan uid new).1 ≡ true
      → rows (update s chan uid new).0 ≡ with_row (rows s) chan uid (updated (rows s chan uid) new)
  pub update_err :
      (s : State) (chan : Bool) (uid : ℕ) (new : Subscription)
      → (update s chan uid new).1 ≡ false
      → rows (update s chan uid new).0 ≡ rows s
  pub delete_ok :
      (s : State) (chan : Bool) (uid : ℕ)
      → (delete s chan uid).1 ≡ true
      → rows (delete s chan uid).0 ≡ with_row (rows s) chan uid none
  pub delete_err :
      (s : State) (chan : Bool) (uid : ℕ)
      → (delete s chan uid).1 ≡ false
      → rows (delete s chan uid).0 ≡ rows s
