-- ===== src/Asr/Live.antt =====
-- asr.rs: what clients of the live text may rely on.
use ai_data_hackathon.Prelude.{
  ℕ, suc, ◌+◌, ◌≤◌, ◌<◌, ◌≡◌, refl, sym, ap, ◌∙◌, Bool, true, false, ◌||◌, Option, none, some, List,
  [], ◌∷◌, ◌++◌, arith, ltb, leb, ◌==◌, if◌then◌else◌, ==_iff, length, length-append, u64_max,
  add_u64, saturating_sub,
}
use ai_data_hackathon.Prelude.Text.{is_empty_text}
use ai_data_hackathon.Asr.{
  RecognizedSegment, SegmentUpdate, LiveReconciler, Pass, with_update, next_id, next_revision,
  index_after, has_text, first_start, last_end, LiveSettings, new_reconciler, commit, commit_loop,
  provide, apply_pass, snapshot, display_text,
}

-- The segments have the ids from `k` on, one after the other.
abbrev pub Numbered : ℕ → List SegmentUpdate → Type 0
Numbered k [] = Unit {0}
Numbered k (u ∷ us) = (u.segment_id ≡ k) × Numbered (suc k) us

-- The segments of a snapshot have the ids from 0 on, and the next id is the one after them.
pub record IsNumbered (r : LiveReconciler) : Type 0 where
  pub ids : Numbered 0 (snapshot r)
  pub next : r.next_index ≡ length (snapshot r)

-- A client that replaces the text of a segment that it knows and adds one that it does not.
abbrev pub upsert : SegmentUpdate → List SegmentUpdate → List SegmentUpdate
upsert u [] = u ∷ []
upsert u (x ∷ xs) =
    let rest = upsert u xs in if x.segment_id == u.segment_id then u ∷ xs else x ∷ rest

abbrev pub apply_updates : List SegmentUpdate → List SegmentUpdate → List SegmentUpdate
apply_updates [] known = known
apply_updates (u ∷ us) known = apply_updates us (upsert u known)

apply_updates-append :
    (us vs known : List SegmentUpdate)
    → apply_updates (us ++ vs) known ≡ apply_updates vs (apply_updates us known)
apply_updates-append [] vs known = refl
apply_updates-append (u ∷ us) vs known = apply_updates-append us vs (upsert u known)

Numbered-snoc :
    (k : ℕ) (xs : List SegmentUpdate) (a : SegmentUpdate)
    → Numbered k xs
    → a.segment_id ≡ k + length xs
    → Numbered k (xs ++ (a ∷ []))
Numbered-snoc k [] a n e = (omega (arith, e), tt)
Numbered-snoc k (x ∷ xs) a n e = (n.0, Numbered-snoc (suc k) xs a n.1 (omega (arith, e)))

Numbered-front :
    (k : ℕ) (xs : List SegmentUpdate) (a : SegmentUpdate)
    → Numbered k (xs ++ (a ∷ []))
    → Numbered k xs × (a.segment_id ≡ k + length xs)
Numbered-front k [] a n = (tt, omega (arith, n.0))
Numbered-front k (x ∷ xs) a n =
    let rest = Numbered-front (suc k) xs a n.1 in ((n.0, rest.0), omega (arith, rest.1))

upsert_here :
    (b : Bool) (u x : SegmentUpdate) (xs rest : List SegmentUpdate)
    → b ≡ false
    → (if b then u ∷ xs else x ∷ rest) ≡ x ∷ rest
upsert_here b u x xs rest e = ground arith

differs : (a b : ℕ) → a < b → (a == b) ≡ false
differs a b h = ground arith

upsert_new :
    (k : ℕ) (xs : List SegmentUpdate) (u : SegmentUpdate)
    → Numbered k xs
    → u.segment_id ≡ k + length xs
    → upsert u xs ≡ xs ++ (u ∷ [])
upsert_new k [] u n e = refl
upsert_new k (x ∷ xs) u n e =
    upsert_here (x.segment_id == u.segment_id) u x xs (upsert u xs)
      (differs x.segment_id u.segment_id (omega (arith, n.0, e)))
    ∙ ap (λ (rest : List SegmentUpdate). x ∷ rest) (upsert_new (suc k) xs u n.1 (omega (arith, e)))

upsert_last :
    (k : ℕ) (xs : List SegmentUpdate) (p u : SegmentUpdate)
    → Numbered k xs
    → p.segment_id ≡ k + length xs
    → u.segment_id ≡ p.segment_id
    → upsert u (xs ++ (p ∷ [])) ≡ xs ++ (u ∷ [])
upsert_last k [] p u n e f =
    found (p.segment_id == u.segment_id) ((==_iff p.segment_id u.segment_id).1 (sym f))
  where
    found : (b : Bool) → b ≡ true → (if b then u ∷ [] else p ∷ upsert u []) ≡ u ∷ []
    found b e = ground arith
upsert_last k (x ∷ xs) p u n e f =
    upsert_here (x.segment_id == u.segment_id) u x (xs ++ (p ∷ [])) (upsert u (xs ++ (p ∷ [])))
      (differs x.segment_id u.segment_id (omega (arith, n.0, e, f)))
    ∙ ap (λ (rest : List SegmentUpdate). x ∷ rest)
        (upsert_last (suc k) xs p u n.1 (omega (arith, e)) f)

-- The place of the next update: after the committed segments, in place of the provisional one.
record Placed (r : LiveReconciler) (u : SegmentUpdate) : Type 0 where
  ids : Numbered 0 (r.committed ++ (u ∷ []))
  next : index_after r ≡ length (r.committed ++ (u ∷ []))
  shown : upsert u (snapshot r) ≡ r.committed ++ (u ∷ [])
  grows : index_after r ≤ suc r.next_index

next_small : (n : ℕ) → n < u64_max → add_u64 n 1 ≡ suc n
next_small n h = omega (arith, h)

length-snoc :
    (xs : List SegmentUpdate) (u : SegmentUpdate) → length (xs ++ (u ∷ [])) ≡ suc (length xs)
length-snoc xs u = omega (arith, length-append xs (u ∷ []))

placed_at :
    (r : LiveReconciler) (o : Option SegmentUpdate) (u : SegmentUpdate)
    → IsNumbered (record r { provisional = o })
    → r.next_index < u64_max
    → u.segment_id ≡ next_id (record r { provisional = o })
    → Placed (record r { provisional = o }) u
unfolding snapshot
placed_at r none u v small e =
    let at : u.segment_id ≡ 0 + length r.committed = omega (arith, e, v.next) in
    record {
      ids = Numbered-snoc 0 r.committed u v.ids at;
      next =
          next_small r.next_index small
          ∙ ap (λ (n : ℕ). suc n) v.next
          ∙ sym (length-snoc r.committed u);
      shown = upsert_new 0 r.committed u v.ids at;
      grows = omega (arith, next_small r.next_index small);
    }
placed_at r (some p) u v small e =
    let front = Numbered-front 0 r.committed p v.ids in
    record {
      ids = Numbered-snoc 0 r.committed u front.0 (e ∙ front.1);
      next = v.next ∙ length-snoc r.committed p ∙ sym (length-snoc r.committed u);
      shown = upsert_last 0 r.committed p u front.0 front.1 e;
      grows = omega arith;
    }

placed :
    (r : LiveReconciler) (u : SegmentUpdate)
    → IsNumbered r
    → r.next_index < u64_max
    → u.segment_id ≡ next_id r
    → Placed r u
placed r u v small e = placed_at r r.provisional u v small e

-- A client that showed the segments of `r` shows those of `next` after the updates.
record Synced (r : LiveReconciler) (updates : List SegmentUpdate) (next : LiveReconciler)
    : Type 0 where
  valid : IsNumbered next
  shown : apply_updates updates (snapshot r) ≡ snapshot next

Synced-append :
    (a b c : LiveReconciler) (us vs : List SegmentUpdate)
    → Synced a us b
    → Synced b vs c
    → Synced a (us ++ vs) c
Synced-append a b c us vs x y = record {
  valid = y.valid;
  shown = apply_updates-append us vs (snapshot a) ∙ ap (apply_updates vs) x.shown ∙ y.shown;
}

commit_syncs :
    (first : RecognizedSegment) (r : LiveReconciler)
    → IsNumbered r
    → r.next_index < u64_max
    → Synced r ((commit first r).1 ∷ []) (commit first r).0
      × ((commit first r).0.next_index ≤ suc r.next_index)
unfolding commit snapshot
commit_syncs first r v small =
    let p = placed r (commit first r).1 v small refl in
    (record { valid = record { ids = p.ids; next = p.next }; shown = p.shown }, p.grows)

record Reached (r : LiveReconciler) (n : ℕ) (p : Pass) : Type 0 where
  synced : Synced r p.updates p.state
  room : p.state.next_index + length p.remaining ≤ r.next_index + n

stay :
    (r : LiveReconciler) (segments : List RecognizedSegment)
    → IsNumbered r
    → Reached r (length segments) (record { state = r; remaining = segments; updates = [] })
stay r segments v = record { synced = record { valid = v; shown = refl }; room = omega arith }

loop_syncs :
    (force : Bool) (stable_before : ℕ) (segments : List RecognizedSegment) (r : LiveReconciler)
    → IsNumbered r
    → r.next_index + length segments < u64_max
    → Reached r (length segments) (commit_loop force stable_before segments r)
unfolding commit_loop
loop_syncs force stable_before [] r v small = stay r [] v
loop_syncs force stable_before (last ∷ []) r v small = stay r (last ∷ []) v
loop_syncs force stable_before (first ∷ second ∷ rest) r v small =
    let done = commit_syncs first r v (omega (arith, small)) in
    let further =
      loop_syncs force stable_before (second ∷ rest) (commit first r).0 done.0.valid
        (omega (arith, small, done.1)) in
    chosen (force || leb first.end_sample stable_before) done.0 done.1 further
  where
    chosen :
        (b : Bool)
        → Synced r ((commit first r).1 ∷ []) (commit first r).0
        → (commit first r).0.next_index ≤ suc r.next_index
        → Reached
            (commit first r).0
            (length (second ∷ rest))
            (commit_loop force stable_before (second ∷ rest) (commit first r).0)
        → Reached r (length (first ∷ second ∷ rest)) (
            if b
            then with_update
                (commit first r).1
                (commit_loop force stable_before (second ∷ rest) (commit first r).0)
            else record { state = r; remaining = first ∷ second ∷ rest; updates = [] })
    chosen true done grows further = record {
      synced = Synced-append r (commit first r).0 _ ((commit first r).1 ∷ []) _ done further.synced;
      room = omega (arith, grows, further.room);
    }
    chosen false done grows further = stay r (first ∷ second ∷ rest) v

provide_syncs :
    (audio_end : ℕ) (p : Pass) (r : LiveReconciler)
    → Synced r p.updates p.state
    → p.state.next_index < u64_max
    → Synced r (provide audio_end p).1 (provide audio_end p).0
unfolding provide snapshot
provide_syncs audio_end p r done small = chosen (
    is_empty_text (display_text p.remaining)
    || has_text p.state.provisional (display_text p.remaining))
  where
    next : SegmentUpdate
    next = record {
      segment_id = next_id p.state;
      revision = next_revision p.state;
      start_sample = first_start p.state.committed_until p.remaining;
      end_sample = last_end audio_end p.remaining;
      text = display_text p.remaining;
    }

    shown : LiveReconciler
    shown = record p.state { provisional = some next; next_index = index_after p.state }

    added : Synced r (p.updates ++ (next ∷ [])) shown
    added =
        let q = placed p.state next done.valid small refl in
        Synced-append r p.state shown p.updates (next ∷ []) done
          (record { valid = record { ids = q.ids; next = q.next }; shown = q.shown })

    chosen :
        (b : Bool)
        → let result : LiveReconciler × List SegmentUpdate =
            if b then (p.state, p.updates) else (shown, p.updates ++ (next ∷ [])) in
          Synced r result.1 result.0
    chosen true = done
    chosen false = added

apply_pass_syncs :
    (r : LiveReconciler) (segments : List RecognizedSegment) (audio_end : ℕ)
    → IsNumbered r
    → r.next_index + length segments < u64_max
    → Synced r (apply_pass r segments audio_end).1 (apply_pass r segments audio_end).0
unfolding apply_pass
apply_pass_syncs r segments audio_end v small =
    let stable_before = saturating_sub audio_end r.settings.stability_margin_samples in
    let force = ltb r.settings.max_tail_samples (saturating_sub audio_end r.committed_until) in
    let p = loop_syncs force stable_before segments r v small in
    provide_syncs audio_end (commit_loop force stable_before segments r) r p.synced
      (omega (arith, p.room, small))

-- If the segments of a reconciler have the ids 0, 1, … in order and its next id is the one after
-- them, and the segments of a pass do not use up the 64-bit ids, then the reconciler after the
-- pass has such segments and such a next id again, and a client that holds the snapshot before the
-- pass and replaces or adds the segments of the updates, one after the other, by their ids holds
-- the snapshot after the pass.
pub apply_pass-IsNumbered :
    (r : LiveReconciler) (segments : List RecognizedSegment) (audio_end : ℕ)
    → IsNumbered r
    → r.next_index + length segments < u64_max
    → let after = apply_pass r segments audio_end in
      IsNumbered after.0 × (apply_updates after.1 (snapshot r) ≡ snapshot after.0)
apply_pass-IsNumbered r segments audio_end v small =
    let done = apply_pass_syncs r segments audio_end v small in (done.valid, done.shown)

new_reconciler-IsNumbered : (settings : LiveSettings) → IsNumbered (new_reconciler settings)
unfolding snapshot
new_reconciler-IsNumbered settings = record { ids = tt; next = refl }
