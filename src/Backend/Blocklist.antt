-- ===== src/Backend/Blocklist.antt =====
-- The hosts that moderation has learned: backend/app/crud/blocked_host.py and directory_host.py.
-- The time of a review and the sample links of a blocked host are left out.
use ubd_probe.Prelude.{
  ℕ, suc, Bool, true, false, ◌&&◌, ◌||◌, Option, none, some, List, [], ◌∷◌, ◌++◌, contains, null,
  find?, ◌==◌, nat_eq, list_eq, list_beq, if◌then◌else◌,
}
use ubd_probe.Prelude.Text.{Text}
use ubd_probe.Backend.Urlnorm.{bare_host}
use ubd_probe.Backend.Model.{
  pending_review, rejected, status_eq, crawler, creator_eq, BlockedStatus, approved, declined,
  BlockedHost, Offer, Db, Result, ok, err, not_found, validation_error,
}

abbrev set_host : ℕ → (BlockedHost → BlockedHost) → List BlockedHost → List BlockedHost
set_host id f [] = []
set_host id f (h ∷ hosts) = (if h.id == id then f h else h) ∷ set_host id f hosts

-- `_review`
unfoldable pub review_host : Db → ℕ → BlockedStatus → ℕ → Result Db
unfolding find?
review_host db id status by = elim (find? (λ h. h.id == id) db.blocked) [
  | none ↦ err not_found
  | some host ↦ ok (record db {
    blocked = set_host id (λ h. record h { status = status; reviewed_by = some by }) db.blocked;
  })
]

-- `reject`
unfoldable pub unblock_host : Db → ℕ → ℕ → Result Db
unfolding review_host
unblock_host db id by = review_host db id declined by

-- The upsert of `add_manual` and `auto_block`: the row of the host, or a new one, is approved. A new
-- row takes `by` as its reviewer, an old one what `reviewer` makes of its own.
unfoldable pub approve_host : Db → Text → Option ℕ → (Option ℕ → Option ℕ) → Db
unfolding find? list_beq
approve_host db h by reviewer = elim (find? (λ row. row.host == h) db.blocked) [
  | none ↦ record db {
    blocked =
        db.blocked
        ++ (record { id = db.next_host_id; host = h; status = approved; reviewed_by = by } ∷ []);
    next_host_id = suc db.next_host_id;
  }
  | some found ↦ record db {
    blocked =
        set_host found.id
          (λ row. record row { status = approved; reviewed_by = reviewer row.reviewed_by })
          db.blocked;
  }
]

unfoldable pub add_manual : Db → Text → ℕ → Result Db
unfolding bare_host approve_host
add_manual db host by =
    let h = bare_host host in
    if null h then err validation_error else ok (approve_host db h (some by) (λ _. some by))

unfoldable pub auto_block : Db → Text → Result Db
unfolding bare_host approve_host
auto_block db host =
    let h = bare_host host in
    if null h then err validation_error else ok (approve_host db h none (λ old. old))

-- `bare_host` of a column that may be null
abbrev column_host : Option Text → Text
column_host none = []
column_host (some url) = bare_host url

abbrev pub is_swept : Text → Offer → Bool
is_swept host o =
    o.created_by == crawler
    && o.status == pending_review
    && (column_host o.site_url == host || column_host o.article_url == host)

-- `_sweep`
unfoldable pub sweep : Text → List Offer → List Offer
unfolding bare_host list_beq
sweep host [] = []
sweep host (o ∷ offers) =
    (if is_swept host o then record o { status = rejected } else o) ∷ sweep host offers

-- `register`, with what it returns
unfoldable pub register : Db → Text → Db × Bool
unfolding bare_host contains sweep list_beq
register db host =
    let h = bare_host host in
    if null h || contains db.directories h
    then (db, false)
    else (record db { directories = db.directories ++ (h ∷ []); offers = sweep h db.offers }, true)
