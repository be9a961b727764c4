-- ===== src/Audit/History/Laws.antt =====
-- That content is kept for requests in the table only, and what a deletion leaves.
use control_deck.Prelude.{
  ℕ, ◌+◌, ◌*◌, ◌≤◌, String, Bool, true, false, ◌≡◌, ◌≢◌, ◌↔◌, refl, ap, ◌∙◌, not, none, some, List,
  [], ◌∷◌, any, filter, delete, upsert, length, All, Mem, All-upsert, mem-filter, mem-of-mem_filter,
  Option-cases, find, find-upsert_self, find-upsert_other, Bool-cases, inl, inr, arith,
}
use control_deck.Types.{Text}
use control_deck.Database.{RequestRow, AuditContentRow, Db}
use control_deck.Scheduler.Queue.{request_is}
use control_deck.Audit.History.{
  content_is, record_audit_content, day_ms, is_old, delete_audit_history, is_orphan,
}

-- Every content that is kept belongs to a request in the table.
abbrev pub HasRequests : Db → Type 0
HasRequests db =
    All (λ (c : AuditContentRow). any (request_is c.request_id) db.requests ≡ true) db.audit_content

module _ {ℓ} {A : Type ℓ} (p : A → Bool) where
  pub length-delete : (xs : List A) → length (delete p xs) + length (filter p xs) ≡ length xs
  length-delete [] = refl
  length-delete (x ∷ xs) = elim (Bool-cases (p x)) [
    | inl e ↦ rw e (omega (arith, length-delete xs))
    | inr e ↦ rw e (omega (arith, length-delete xs))
  ]

  delete-filter : (xs : List A) → delete p xs ≡ filter (λ x. not (p x)) xs
  delete-filter [] = refl
  delete-filter (x ∷ xs) = elim (Bool-cases (p x)) [
    | inl e ↦ rw e (delete-filter xs)
    | inr e ↦ rw e (ap (λ (t : List A). x ∷ t) (delete-filter xs))
  ]

  mem-delete : (xs : List A) (x : A) → Mem x (delete p xs) ↔ (Mem x xs × (p x ≡ false))
  mem-delete xs x = (
    λ m.
        let (q, k) = mem-of-mem_filter (λ x. not (p x)) xs x (rw (delete-filter xs) at m) in
        (k, ground arith),
    λ (m, q). rw (delete-filter xs) (mem-filter (λ x. not (p x)) xs x m (rw q refl)),
  )

orphans_gone :
    (requests : List RequestRow) (cs : List AuditContentRow)
    → All (λ c. any (request_is c.request_id) requests ≡ true) (delete (is_orphan requests) cs)
orphans_gone requests [] = tt
orphans_gone requests (c ∷ cs) = elim (Bool-cases (any (request_is c.request_id) requests)) [
  | inl e ↦ rw e (e, orphans_gone requests cs)
  | inr e ↦ rw e (orphans_gone requests cs)
]

content_key : AuditContentRow → String
content_key c = c.request_id

-- Keeping a content succeeds exactly for a request in the table; the content is then what is kept for
-- it, the contents of other requests are as they were, and each content still has its request.
pub record_audit_content-kept :
    (db : Db) (id : String) (prompt response : Text) (now : ℕ)
    → HasRequests db
    → (any (request_is id) db.requests ≡ false
        → record_audit_content db id prompt response now ≡ none)
      × (any (request_is id) db.requests ≡ true
          → (db' : Db) × (record_audit_content db id prompt response now ≡ some db')
            × HasRequests db'
            × ((c : AuditContentRow) × (find (content_is id) db'.audit_content ≡ some c)
                × (c.prompt ≡ prompt)
                × (c.response ≡ response))
            × ((other : String)
                → id ≢ other
                → find (content_is other) db'.audit_content
                  ≡ find (content_is other) db.audit_content))
unfolding record_audit_content content_key
record_audit_content-kept db id prompt response now ok =
    let new : AuditContentRow = record {
      request_id = id;
      prompt = prompt;
      response = response;
      created_at = now;
    } in
    let set : AuditContentRow → AuditContentRow =
      λ c. record c { prompt = prompt; response = response; created_at = now } in
    (
      λ absent. rw absent refl,
      λ present. (
        record db { audit_content = upsert (content_is id) set new db.audit_content },
        rw present refl,
        All-upsert (λ (c : AuditContentRow). any (request_is c.request_id) db.requests ≡ true)
            (content_is id) set new (λ x h. h) db.audit_content (λ _. present) ok,
        elim (Option-cases (find (content_is id) db.audit_content)) [
          | inl e ↦ (
            new,
            find-upsert_self content_key set new id db.audit_content refl (λ c. refl) ∙ rw e refl,
            refl,
            refl,
          )
          | inr (c, e) ↦ (
            set c,
            find-upsert_self content_key set new id db.audit_content refl (λ c. refl) ∙ rw e refl,
            refl,
            refl,
          )
        ],
        λ other ne.
            find-upsert_other content_key set new id other db.audit_content refl (λ c. refl) ne,
      ),
    )

-- Deleting the history removes exactly the requests that arrived more than the days given ago,
-- reports how many they were, and leaves no content without its request.
pub delete_audit_history-HasRequests :
    (db : Db) (days now : ℕ)
    → let (db', count) = delete_audit_history db days now in
      HasRequests db'
      × ((r : RequestRow)
          → Mem r db'.requests ↔ (Mem r db.requests × (now ≤ r.arrived_at + days * day_ms)))
      × (length db'.requests + count ≡ length db.requests)
unfolding delete_audit_history
delete_audit_history-HasRequests db days now =
    let kept = delete (is_old days now) db.requests in
    (
      orphans_gone kept db.audit_content,
      λ r. (
        λ m. let (k, q) = (mem-delete (is_old days now) db.requests r).0 m in (k, ground arith),
        λ (m, q). (mem-delete (is_old days now) db.requests r).1 (m, ground arith),
      ),
      length-delete (is_old days now) db.requests,
    )
