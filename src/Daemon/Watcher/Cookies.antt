-- ===== src/Daemon/Watcher/Cookies.antt =====
-- crates/daemon/src/watcher.rs: the cookies that should pair the two halves of a rename.
use fake_notify.Base.{
  ◌<◌, ◌≡◌, ◌≢◌, true, false, none, some, FilePath, get, insert, get-insert, get-remove, list_eq,
  component_eq, list_beq_iff, arith,
}
use fake_notify.Protocol.Event.{EventMask, in_moved_from, in_moved_to, intersects}
use fake_notify.Daemon.Watcher.{Dispatcher, rename_cookie}

-- An event that is no rename carries the cookie 0 and changes nothing.
pub rename_cookie_plain :
    (d : Dispatcher) (p : FilePath) (m : EventMask)
    → intersects m in_moved_from ≡ false
    → intersects m in_moved_to ≡ false
    → rename_cookie d p m ≡ (0, d)
unfolding rename_cookie
rename_cookie_plain d p m e f = ground (arith, e, f)

module _ (d : Dispatcher) (a b : FilePath) (gone came : EventMask)
    (word : d.cookie_counter < 4294967296) (from : intersects gone in_moved_from ≡ true)
    (into : intersects came in_moved_to ≡ true) (only : intersects came in_moved_from ≡ false) where
  -- The dispatcher after the first half.
  abbrev moved : Dispatcher
  moved = (rename_cookie d a gone).1

  -- Two halves of a rename on one and the same path, the first with IN_MOVED_FROM and the second
  -- with IN_MOVED_TO alone, share their cookie, and nothing is pending under the path then. The
  -- counter is a 32-bit word.
  pub rename_same_path :
      a ≡ b
      → ((rename_cookie moved b came).0 ≡ (rename_cookie d a gone).0)
        × (get (rename_cookie moved b came).1.pending_renames b ≡ none)
  unfolding rename_cookie
  rename_same_path e =
      let law = get-insert d.pending_renames a d.cookie_counter b in
      let law' = get-remove (insert d.pending_renames a d.cookie_counter) b b in
      (
        ground (arith, e, from, into, only, law, list_beq_iff a b),
        ground (arith, e, from, into, only, law, law', list_beq_iff a b, list_beq_iff b b),
      )

  -- When the halves are on two different paths, as those of a rename are, and none is pending under
  -- the second, then they get different cookies, and the first stays pending. If an event with the mask
  -- of the second half comes next on the first path, and so belongs to another rename, it is given the
  -- cookie of the first half. The counter is a 32-bit word.
  pub rename_unpaired :
      a ≢ b
      → get d.pending_renames b ≡ none
      → let second = rename_cookie moved b came in
        (second.0 ≢ (rename_cookie d a gone).0)
        × (get second.1.pending_renames a ≡ some (rename_cookie d a gone).0)
        × ((rename_cookie second.1 a came).0 ≡ (rename_cookie d a gone).0)
  unfolding rename_cookie
  rename_unpaired ne fresh =
      let law = get-insert d.pending_renames a d.cookie_counter b in
      let law' = get-insert d.pending_renames a d.cookie_counter a in
      let law'' = get-remove (insert d.pending_renames a d.cookie_counter) b a in
      (
        ground (arith, from, into, only, law, list_beq_iff a b),
        ground (
          arith,
          from,
          into,
          only,
          law,
          law',
          law'',
          list_beq_iff a b,
          list_beq_iff b a,
          list_beq_iff a a,
        ),
        ground (
          arith,
          from,
          into,
          only,
          law,
          law',
          law'',
          list_beq_iff a b,
          list_beq_iff b a,
          list_beq_iff a a,
        ),
      )
