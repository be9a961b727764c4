-- ===== src/Audit/Entries/Laws.antt =====
-- The list of requests is one list, newest first, of which each call shows a part.
use control_deck.Prelude.{
  Bool, [], ◌∷◌, lex, lex-IsPreorder, sort_by, All-map, Bool-cases, inl, inr, ℕ, true, ◌≡◌, ◌↔◌,
  refl, subst, some, List, map, filter, take, Mem, mem-map, mem-of-mem_map, mem-filter,
  mem-of-mem_filter, IsPreorder, leb-IsPreorder, IsSorted, sort_by-IsSorted, mem-sort_by,
}
use control_deck.Database.{RequestRow, Db}
use control_deck.Audit.Entries.{
  GetAuditEntriesInput, AuditEntry, matches, entry_of, newer, newest_first, skip, get_audit_entries,
}

newer-IsPreorder : IsPreorder newer
newer-IsPreorder = record {
  total = λ a b. leb-IsPreorder.total b.arrived_at a.arrived_at;
  trans = λ a b c h k. leb-IsPreorder.trans c.arrived_at b.arrived_at a.arrived_at k h;
}

-- What the calls of one filter show: parts of one list, newest first, of exactly the rows that the
-- filter lets through, each with its flag for kept content.
pub record Listing (db : Db) (input : GetAuditEntriesInput) (listing : List AuditEntry)
    : Type 0 where
  pub newest : IsSorted newer listing
  pub exact :
      (e : AuditEntry)
      → Mem e listing
        ↔ ((r : RequestRow) × Mem r db.requests × (matches input r ≡ true) × (entry_of db r ≡ e))

abbrev pub page : GetAuditEntriesInput → ℕ → ℕ → GetAuditEntriesInput
page input limit offset = record input { limit = some limit; offset = some offset }

IsSorted-lex :
    (tie : AuditEntry → AuditEntry → Bool) (es : List AuditEntry)
    → IsSorted (lex newer tie) es
    → IsSorted newer es
IsSorted-lex tie [] h = tt
IsSorted-lex tie (e ∷ es) (h, hs) =
    (All-map _ _ (λ (x : AuditEntry) before. lex-le tie e x before) es h, IsSorted-lex tie es hs)
  where
    lex-le :
        (tie : AuditEntry → AuditEntry → Bool) (e x : AuditEntry)
        → lex newer tie e x ≡ true
        → newer e x ≡ true
    lex-le tie e x h = elim (Bool-cases (newer e x)) [
      | inl k ↦ k
      | inr k ↦ let stopped = rw k at h in cc
    ]

-- As long as the database puts requests of one time in one order, the pages of one filter are the
-- parts of one list: it is sorted, newest first, and holds exactly the requests that pass the filter.
-- `tie` is that order, any one that is total.
pub get_audit_entries-Listing :
    (tie : AuditEntry → AuditEntry → Bool) (db : Db) (input : GetAuditEntriesInput)
    → IsPreorder tie
    → (listing : List AuditEntry) × Listing db input listing
      × ((limit offset : ℕ)
          → get_audit_entries tie db (page input limit offset) ≡ take limit (skip offset listing))
unfolding get_audit_entries newest_first
get_audit_entries-Listing tie db input order =
    let rows = filter (matches input) db.requests in
    (
      newest_first tie (map (entry_of db) rows),
      record {
        newest = IsSorted-lex tie (sort_by (lex newer tie) (map (entry_of db) rows)) (
            sort_by-IsSorted (lex newer tie) (lex-IsPreorder newer-IsPreorder order)
              (map (entry_of db) rows));
        exact = λ e. (
          λ m.
              let (r, listed, same) =
                mem-of-mem_map (entry_of db) rows e
                  ((mem-sort_by (lex newer tie) e (map (entry_of db) rows)).1 m) in
              let (ok, row) = mem-of-mem_filter (matches input) db.requests r listed in
              (r, row, ok, same),
          λ (r, row, ok, same). (mem-sort_by (lex newer tie) e (map (entry_of db) rows)).0 (
              subst (λ (x : AuditEntry). Mem x (map (entry_of db) rows)) same
                (mem-map (entry_of db) rows r (mem-filter (matches input) db.requests r row ok))),
        );
      },
      λ limit offset. refl,
    )
