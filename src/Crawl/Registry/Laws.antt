-- ===== src/Crawl/Registry/Laws.antt =====
-- The cooldown and the latch of the domain registry.
use ubd_probe.Prelude.{
  ℕ, zero, suc, ◌-◌, ◌≡◌, refl, sym, ap, ◌∙◌, Bool, true, false, some, null, ltb, nat_eq, list_eq,
  arith, Bool-cases, inl, inr,
}
use ubd_probe.Prelude.Dict.{lookup-insert_self}
use ubd_probe.Prelude.Text.{Text}
use ubd_probe.Hosts.{bare_host}
use ubd_probe.Crawl.Registry.{
  Domain, Registry, known_domain, crawled, domain_of, record_crawl, put, take_skip,
  mark_media_blocked, media_block_due, editorial_block_due,
}

-- The registry after `n` more calls of `take_skip`.
abbrev pub skip_times : ℕ → Text → Registry → Registry
skip_times zero host r = r
skip_times (suc n) host r = skip_times n host (take_skip host r).1

domain_of-put :
    (host : Text) (e : Domain) (r : Registry) → domain_of host (put (bare_host host) e r) ≡ some e
unfolding domain_of
domain_of-put host e r = lookup-insert_self (bare_host host) e r.domains

skip_owed :
    (host : Text) (r : Registry) (e : Domain)
    → domain_of host r ≡ some e
    → ltb 0 e.skip_left ≡ true
    → take_skip host r ≡ (true, put (bare_host host) (record e { skip_left = e.skip_left - 1 }) r)
unfolding take_skip
skip_owed host r e known owed = rw (take_skip, known, owed) refl

no_skip :
    (host : Text) (r : Registry) (e : Domain)
    → domain_of host r ≡ some e
    → ltb 0 e.skip_left ≡ false
    → take_skip host r ≡ (false, r)
unfolding take_skip
no_skip host r e known none_left = rw (take_skip, known, none_left) refl

skips_left :
    (n : ℕ) (host : Text) (r : Registry) (e : Domain)
    → domain_of host r ≡ some e
    → (take_skip host (skip_times n host r)).0 ≡ ltb n e.skip_left
skips_left zero host r e known = elim (Bool-cases (ltb 0 e.skip_left)) [
  | inl owed ↦ ap (λ (t : Bool × Registry). t.0) (skip_owed host r e known owed) ∙ sym owed
  | inr done ↦ ap (λ (t : Bool × Registry). t.0) (no_skip host r e known done) ∙ sym done
]
skips_left (suc n) host r e known = elim (Bool-cases (ltb 0 e.skip_left)) [
  | inl owed ↦
      let next = record e { skip_left = e.skip_left - 1 } in
      let shift : ltb n (e.skip_left - 1) ≡ ltb (suc n) e.skip_left = ground arith in
      ap (λ (t : Bool × Registry). (take_skip host (skip_times n host t.1)).0)
        (skip_owed host r e known owed)
      ∙ skips_left n host (put (bare_host host) next r) next (domain_of-put host next r)
      ∙ shift
  | inr done ↦
      let shift : ltb n e.skip_left ≡ ltb (suc n) e.skip_left = ground arith in
      ap (λ (t : Bool × Registry). (take_skip host (skip_times n host t.1)).0)
        (no_skip host r e known done)
      ∙ skips_left n host r e known
      ∙ shift
]

-- After a crawl of a host with a name that has brought no offer, exactly the next `empty_skip` crawls of the host
-- are skipped.
pub take_skip-record_crawl :
    (host : Text) (errors now n : ℕ) (structural_provider : Bool) (r : Registry)
    → null (bare_host host) ≡ false
    → (take_skip host (skip_times n host (record_crawl host 0 errors structural_provider now r))).0
      ≡ ltb n r.empty_skip
unfolding record_crawl crawled
take_skip-record_crawl host errors now n structural_provider r named =
    let e = crawled r 0 errors structural_provider now (known_domain now (domain_of host r)) in
    rw named (skips_left n host (put (bare_host host) e r) e (domain_of-put host e r))

-- Once a known host is marked as blocked, neither block is due for it again.
pub mark_media_blocked-latches :
    (host : Text) (k : ℕ) (e : Domain) (r : Registry)
    → domain_of host r ≡ some e
    → (media_block_due host k (mark_media_blocked host r) ≡ false)
      × (editorial_block_due host (mark_media_blocked host r) ≡ false)
unfolding media_block_due editorial_block_due mark_media_blocked
mark_media_blocked-latches host k e r known =
    let put_back = domain_of-put host (record e { media_blocked = true }) r in
    (
      rw (mark_media_blocked, media_block_due, known, put_back) (ground arith),
      rw (mark_media_blocked, editorial_block_due, known, put_back) (ground arith),
    )
