-- ===== src/Gotify/Memory/Frame.antt =====
-- What an entry of the deletion log leaves alone in memoryStore: everything but the log.
use timelynotify_server.Base.{ℤ, ◌≡◌, arith}
use timelynotify_server.Gotify.Model.{DeletionRecord}
use timelynotify_server.Gotify.Memory.{MemoryStore, add_deletion}

module _ (now : ℤ) (r : DeletionRecord) (s : MemoryStore) where
  pub seq-add_deletion : (add_deletion now r s).1.seq ≡ s.seq
  unfolding add_deletion
  seq-add_deletion = ground arith

  pub max-add_deletion : (add_deletion now r s).1.max ≡ s.max
  unfolding add_deletion
  max-add_deletion = ground arith

  pub order-add_deletion : (add_deletion now r s).1.order ≡ s.order
  unfolding add_deletion
  order-add_deletion = ground arith

  pub msgs-add_deletion : (add_deletion now r s).1.msgs ≡ s.msgs
  unfolding add_deletion
  msgs-add_deletion = ground arith

  pub expires-add_deletion : (add_deletion now r s).1.expires ≡ s.expires
  unfolding add_deletion
  expires-add_deletion = ground arith

pub ruleset log_frame = (
  seq-add_deletion, max-add_deletion, order-add_deletion, msgs-add_deletion, expires-add_deletion,
)
