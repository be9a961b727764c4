-- ===== src/Routers/Steps.antt =====
-- What each step of the routers makes of the slots and of the rows of the handlers.
use control_deck.Prelude.{
  List, [], ◌∷◌, ℕ, String, Bool, true, false, ◌≡◌, refl, sym, ap, ◌∙◌, if◌then◌else◌, some, Mem,
  All-map, of_All, update, Bool-cases, inl, inr, IsPreorder, HasDistinctKeys-update, eq_iff,
  same_row, find-update, find_sound,
}
use control_deck.Prelude.Fraction.{Fraction}
use control_deck.Types.{StandardError}
use control_deck.Scheduler.Settings.{Settings}
use control_deck.Scheduler.Keda.{KedaClient}
use control_deck.Scheduler.Queue.{
  request_is, truthy, start_stream, mark_stream_started, complete_request, release_slot,
  complete_row, elapsed,
}
use control_deck.Scheduler.Queue.Completion.{complete_request-replicas, complete_request-requests}
use control_deck.Scheduler.Queue.Clocks.{request_key}
use control_deck.Http.Failure.{mark_failed, return_slot, fail_row, give_back}
use control_deck.Routers.{Holder, System, holder_key, holder_is, begun, doomed, drop_holder}
use control_deck.Routers.Pool.{Pool, idle}
use control_deck.Routers.Rows.{All-update_both, held_by, held_by-update}
use control_deck.Routers.Invariant.{Slot, Runs, Runs-update, IsSound}
use control_deck.Routers.Ending.{Refines, ended}

update-same : {A : Type 0} (p : A → Bool) (xs : List A) → update p (λ x. x) xs ≡ xs
update-same p [] = refl
update-same p (x ∷ xs) = elim (Bool-cases (p x)) [
  | inl e ↦ rw (e, update-same p xs) refl
  | inr e ↦ rw (e, update-same p xs) refl
]

module _ (collate : String → String → Bool) (settings : Settings) (keda : KedaClient)
    (order : IsPreorder collate) (ceiling : Pool) (s : System) (ok : IsSound ceiling s) where
  begun-Runs :
      (h x : Holder) (now : ℕ)
      → Mem h s.holders
      → Mem x s.holders
      → Runs s.db.requests x
      → Runs
          (update (request_is h.request_id) (start_stream h.replica_id now) s.db.requests)
          (if holder_is h.request_id x then begun x else x)
  begun-Runs h x now in_h in_x runs =
      let set = start_stream h.replica_id now in
      let p = request_is h.request_id in
      let seen = find-update request_key p set x.request_id s.db.requests (λ r. refl) in
      let (here, _) = find_sound (request_is x.request_id) s.db.requests runs.row runs.found in
      let id : runs.row.id ≡ x.request_id = (eq_iff runs.row.id x.request_id).0 here in
      elim (Bool-cases (holder_is h.request_id x)) [
        | inl e ↦
            let same : x ≡ h =
              same_row holder_key s.holders x h ok.apart in_x in_h
                ((eq_iff x.request_id h.request_id).0 e) in
            let touched : p runs.row ≡ true = rw id e in
            rw e (record {
              row = set runs.row;
              found = seen ∙ rw (runs.found, touched) refl;
              on = λ _. ap (λ (y : Holder). some y.replica_id) (sym same);
              named = runs.named;
            })
        | inr e ↦
            let untouched : p runs.row ≡ false = rw id e in
            rw e (record {
              row = runs.row;
              found = seen ∙ rw (runs.found, untouched) refl;
              on = runs.on;
              named = runs.named;
            })
      ]

  pub begun_step :
      (h : Holder) (now : ℕ)
      → Mem h s.holders
      → Refines ceiling s (record s {
        db = mark_stream_started s.db h.request_id h.replica_id now;
        holders = update (holder_is h.request_id) begun s.holders;
      })
  unfolding mark_stream_started
  begun_step h now listed =
      let hs = update (holder_is h.request_id) begun s.holders in
      let held : (k : String) → held_by hs k ≡ held_by s.holders k =
        λ k. held_by-update (holder_is h.request_id) begun s.holders k (λ x. refl) in
      record {
        sound = record {
          distinct = ok.distinct;
          slots =
              All-map (Slot ceiling s.holders) (Slot ceiling hs)
                (λ r slot. record {
                  named = slot.named;
                  counted = slot.counted ∙ sym (held r.id);
                  within = slot.within;
                  fixed = slot.fixed;
                })
                s.db.replicas ok.slots;
          apart =
              HasDistinctKeys-update holder_key (holder_is h.request_id) begun s.holders (λ x. refl)
                ok.apart;
          runs =
              All-update_both (Runs s.db.requests)
                (Runs
                  (update (request_is h.request_id) (start_stream h.replica_id now) s.db.requests))
                (holder_is h.request_id) begun s.holders (λ x in_x. begun-Runs h x now listed in_x)
                ok.runs;
        };
        step = idle held;
      }

  pub completed_step :
      (h : Holder) (tokens : ℕ) (cost : Fraction) (now : ℕ)
      → Mem h s.holders
      → h.started ≡ true
      → Refines ceiling s (
          drop_holder s
            (complete_request settings.ewma_alpha s.db h.request_id tokens cost now)
            h.request_id
            (h ∷ s.closing))
  unfolding release_slot
  completed_step h tokens cost now listed begun_already =
      let runs = of_All (Runs s.db.requests) s.holders h ok.runs listed in
      let on : truthy runs.row.replica_id ≡ some h.replica_id =
        ap truthy (runs.on begun_already) ∙ runs.named in
      ended ceiling s ok h listed
        (release_slot settings.ewma_alpha tokens (elapsed runs.row.started_at now) now) (λ r. refl)
        (λ r. refl) (λ r. refl) (complete_row tokens cost now) (λ r. refl) (λ r. refl)
        (complete_request settings.ewma_alpha s.db h.request_id tokens cost now) (h ∷ s.closing)
        (complete_request-replicas settings.ewma_alpha s.db h.request_id tokens cost now runs.row
          runs.found h.replica_id on)
        (complete_request-requests settings.ewma_alpha s.db h.request_id tokens cost now runs.row
          runs.found (some h.replica_id) on)

  doomed-Runs :
      (h x : Holder) (err : StandardError) (now : ℕ)
      → Runs s.db.requests x
      → Runs
          (update (request_is h.request_id) (fail_row err now) s.db.requests)
          (if holder_is h.request_id x then doomed x else x)
  doomed-Runs h x err now runs =
      let kept =
        Runs-update (request_is h.request_id) (fail_row err now) (λ r. refl) s.db.requests x
          (λ r _ _ on. on) runs in
      elim (Bool-cases (holder_is h.request_id x)) [
        | inl e ↦
            rw e (record { row = kept.row; found = kept.found; on = kept.on; named = kept.named })
        | inr e ↦ rw e kept
      ]

  pub failed_step :
      (h : Holder) (err : StandardError) (now : ℕ)
      → Refines ceiling s (record s {
        db = mark_failed s.db h.request_id err now;
        holders = update (holder_is h.request_id) doomed s.holders;
      })
  failed_step h err now =
      let hs = update (holder_is h.request_id) doomed s.holders in
      let held : (k : String) → held_by hs k ≡ held_by s.holders k =
        λ k. held_by-update (holder_is h.request_id) doomed s.holders k (λ x. refl) in
      record {
        sound = record {
          distinct = ok.distinct;
          slots =
              All-map (Slot ceiling s.holders) (Slot ceiling hs)
                (λ r slot. record {
                  named = slot.named;
                  counted = slot.counted ∙ sym (held r.id);
                  within = slot.within;
                  fixed = slot.fixed;
                })
                s.db.replicas ok.slots;
          apart =
              HasDistinctKeys-update holder_key (holder_is h.request_id) doomed s.holders
                (λ x. refl) ok.apart;
          runs =
              All-update_both (Runs s.db.requests)
                (Runs (update (request_is h.request_id) (fail_row err now) s.db.requests))
                (holder_is h.request_id) doomed s.holders (λ x in_x. doomed-Runs h x err now)
                ok.runs;
        };
        step = idle held;
      }

  pub released_step :
      (h : Holder)
      → Mem h s.holders
      → Refines ceiling s
          (drop_holder s (return_slot (truthy (some h.replica_id)) s.db) h.request_id s.closing)
  released_step h listed =
      let runs = of_All (Runs s.db.requests) s.holders h ok.runs listed in
      ended ceiling s ok h listed give_back (λ r. refl) (λ r. refl) (λ r. refl) (λ r. r) (λ r. refl)
        (λ r. refl) (return_slot (truthy (some h.replica_id)) s.db) s.closing (rw runs.named refl)
        (rw runs.named (sym (update-same (request_is h.request_id) s.db.requests)))

  -- The handlers that close hold nothing.
  pub any_closing :
      (closing : List Holder) {t : System}
      → Refines ceiling s t
      → Refines ceiling s (record t { closing = closing })
  any_closing closing next = record {
    sound = record {
      distinct = next.sound.distinct;
      slots = next.sound.slots;
      apart = next.sound.apart;
      runs = next.sound.runs;
    };
    step = next.step;
  }
