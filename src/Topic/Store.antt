-- ===== src/Topic/Store.antt =====
-- server/store/store_messages.go, as a topic uses it: the messages of one topic behind the
-- operations `Save` and `GetByClientId`, with the behaviour that the database adapters document.
use server_chat.Common.{
  ℕ, Bool, false, ◌&&◌, Option, none, some, List, [], ◌∷◌, ◌==◌, ◌≡◌, if◌then◌else◌,
}
use server_chat.Common.Result.{Result, ok, err}

-- types.Message, with the content and the head that the client chose as numbers. `client_id` is
-- `none` for the empty text; `sender` is the "sender" entry of the head.
pub record Message : Type 0 where
  pub seq_id : ℕ
  pub from : ℕ
  pub client_id : Option ℕ
  pub cluster_epoch : Option ℕ
  pub sender : Option ℕ
  pub content : ℕ

-- types.ErrClusterFenced, or any other error of the database.
pub data StoreErr : Type 0 where
  cluster_fenced unavailable : StoreErr

abbrev pub same_client : Option ℕ → ℕ → Bool
same_client none cid = false
same_client (some c) cid = c == cid

-- The message of a user with a client id, among rows.
unfoldable pub find_row : ℕ → ℕ → List Message → Option Message
find_row uid cid [] = none
find_row uid cid (m ∷ rows) =
    if m.from == uid && same_client m.client_id cid then some m else find_row uid cid rows

pub record MessageStore : Type 1 where
  pub State : Type 0
  -- The messages of the topic, the last one first.
  pub rows : State → List Message
  -- Save, with `readBySender`; the result tells whether the sender's read mark was set.
  pub save : State → Message → Bool → State × Result StoreErr Bool
  pub get_by_client_id : State → ℕ → ℕ → Result StoreErr (Option Message)
  -- A message is saved as one unit: it is there after a success, and nothing is after a failure.
  pub save_ok :
      (s : State) (m : Message) (read : Bool) {marked : Bool}
      → (save s m read).1 ≡ ok marked
      → rows (save s m read).0 ≡ m ∷ rows s
  pub save_err :
      (s : State) (m : Message) (read : Bool) {e : StoreErr}
      → (save s m read).1 ≡ err e
      → rows (save s m read).0 ≡ rows s
  -- A lookup that does not fail finds what is there.
  pub get_ok :
      (s : State) (uid cid : ℕ) {found : Option Message}
      → get_by_client_id s uid cid ≡ ok found
      → found ≡ find_row uid cid (rows s)
