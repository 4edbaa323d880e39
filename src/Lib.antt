-- ===== src/Lib.antt =====
-- A verification library for the core of the chat server: its permission modes, the ranges of
-- message ids, the election of a cluster leader, the ring that routes topics, the send queue of a
-- session, the ids of users and their unread counters, and what a topic does with messages, notices,
-- calls, roles and subscriptions.
--
-- The parts, and where they are modelled (paths are from the root of the repository):
--
-- - Access: server/store/types/access_mode.go. A mode is a natural number, its bits the
--   permissions; Access/Mode.antt has the constants, Access/Text.antt the letters (`MarshalText`,
--   `ParseAcs`, `UnmarshalText`), Access/Delta.antt the differences (`Delta`, `ApplyMutation`,
--   `ApplyDelta`). A Go byte slice is a list of numbers. Pointers that the code writes through are
--   arguments and results. `ApplyDelta` runs on fuel, one round for each byte of its text; each
--   round consumes one byte at least. Access/Delta/Chunks.antt compares it with the text read as
--   signs and chunks, without fuel.
-- - Ranges: the types `Range` and `RangeSorter`, and `SliceToRanges`, of
--   server/store/types/message.go. Slices are lists, and writes to an element are list updates.
--   Ids are natural numbers. The sort is an insertion sort: ranges that the order does not tell
--   apart are equal, so that it stands for every sort.
-- - Cluster: internal/server/cluster_leader.go. Cluster/Leader.antt has one node: `run` with a
--   case for each kind of event, `electLeader`, `sendHealthChecks`. Cluster/Election.antt has
--   the whole cluster, as a relation between states: ticks, requests to vote, counts of votes and
--   health checks in any order, with messages that are late, lost or repeated. A ticker, an RPC and
--   a channel are where a step may happen. The signature of the ring hash is a parameter.
--   Cluster/Dedupe.antt is cluster_transport_dedupe.go: the callers share the entries by pointers,
--   which are numbers of a heap, and a time is a number.
-- - Ring: server/ringhash/ringhash.go (`New`, `Add`, `Get`, `hashString`). Go's package `sort` is an
--   interface with its documented laws, strconv.Itoa and the table of CRC-32 are parameters;
--   Examples/Rings.antt has an instance. Ring/Nearest.antt compares the binary search with the
--   next item on the ring, Ring/Stable.antt has what more nodes change.
-- - ReadHistory: server/store/types/read_history.go (`Append`, `TimeFor`).
-- - Session: internal/server/session_serialize.go (`serializeBatchAndUpdateStats`, for JSON) and
--   session_queue.go (`jsonBatchQueueSize`, `reserveOutbound`, `releaseOutbound`). A message is its
--   JSON text. The loops of compare-and-swap are atomic steps; Session/Reservation.antt has every
--   order of them. That a message is written and released once is how its steps are given.
-- - Topic: internal/server/topic.go (the state), topic_roles.go (role presets) and topic_msg.go.
--   Topic/Publish.antt is `saveAndBroadcastMessage` (its requests and replies are in
--   Topic/Posting.antt), Topic/Notes.antt is `handleNoteBroadcast`, and
--   Topic/Delete.antt is `replyDelMsg` of topic_meta_delete.go: functions from the state of the
--   topic to the new state and the list of what is sent, in order. They check the modes of Access,
--   and a deletion uses the ranges of Ranges.
-- - Topic/RoleChange.antt and the modules below it are `setAnotherUserRole` of topic_roles.go;
--   Topic/Subs.antt is the interface of the subscriptions in the store, which it reads and writes
--   (server/store/store_subs.go). Topic/SelfAccess.antt is topic_sub_transition.go,
--   Topic/SelfSub.antt is `thisUserSub` of topic_sub_self.go for a subscription that exists,
--   Topic/FirstSub.antt is the same function for a user without one, and
--   Topic/OtherSub.antt is `anotherUserSub` of topic_sub_other.go. There the success of each
--   write comes with the request. Topic/Invites.antt has the uses of an invitation
--   (topic_invites.go), and Topic/Ownership.antt what it is for a topic to have one owner.
-- - Topic/Calls.antt and the modules below it are the call of a topic: internal/server/calls.go,
--   calls_agora.go, and unregisterSession of topic_sub.go. An event brings the answers of the
--   policies, whether a save succeeds, and the credentials; the map of parties is a list, and
--   the timer is a Boolean: a timer that is stopped does not fire. Topic/Calls/Reasons.antt lists
--   the reasons for which a note ends a call. Topic/Calls/Inviting.antt is
--   `handlePubBroadcast` for an invitation, from its checks over the publication to the call;
--   Topic/Calls/Config.antt has the settings of calls_config.go.
-- - Topic/Store.antt is what a topic asks of the store (server/store/store_messages.go): an
--   interface with the operations, the saved messages and the laws that a save is one unit and
--   that a lookup finds what is there. Examples/Publishing.antt has an instance.
-- - UserCache: internal/server/user_cache.go. The variables of `userUpdater` are a record, each case
--   of its loop is a function, and the reads of the database that go on beside it are part of the
--   state; UserCache/Steps.antt has every order of them. Package container/heap is an interface
--   with what its documentation says of the elements and of the first one.
-- - Uid: server/store/types/uid.go. Uid/Base64.antt is Go's codec of that name, Uid/Words.antt the
--   bytes of a word; Uid/Text.antt has the texts of an id, Uid/Peers.antt the names of P2P topics,
--   Uid/Slice.antt the sorted slices, with Go's sort.Search of Common/Search.antt.
-- - Common: operators, lists, bytes, binary digits and results that the parts share. Lower case and
--   white space are those of ASCII.
-- - Examples: the theorems on concrete data.
--
-- Ids, terms and counters are natural numbers; a w-bit machine integer that overflows is not part
-- of the model, and no operation here subtracts below 0: the one difference that the code lets go
-- below it, the change of the unread count, is kept as its amount.
--
-- The answers of the business policy, the official policy with its slow mode, the fence of the
-- cluster and the audit archive come with a request to publish; they keep their own state. Notices
-- are modelled for topics that are not official. Not modelled: transport, storage, routing, files,
-- authentication, presence, translation and administration, which are mostly input and
-- output, and so far message edits, scheduled messages, the push outbox and the ring's signature.
-- The number of members of a group, which the cache counts, comes with a request as the answer
-- whether the group is full.
pub mod Common
pub mod Access
pub mod Ranges
pub mod Ring
pub mod ReadHistory
pub mod Cluster
pub mod Session
pub mod Topic
pub mod Uid
pub mod UserCache
pub mod Examples
