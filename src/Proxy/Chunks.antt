-- ===== src/Proxy/Chunks.antt =====
-- The event stream of crates/omega-core/src/proxy.rs, polled to its end, and the chunks of its
-- upstream.
use ashat_coding_agent.Base.{
  ℕ, zero, suc, ◌+◌, ◌≤◌, ◌<◌, ◌≡◌, refl, ap, sym, ◌∙◌, Option-cases, Option, none, some, List, [],
  ◌∷◌, ◌++◌, map, take, drop, arith, length, length-drop, length-take, take-append-drop, ◌⊎◌, ◌≢◌,
  inl, inr,
}
use mathlib.Core.List.{append_assoc, append-nil}
use ashat_coding_agent.Proxy.{
  Bytes, Item, chunk, Poll, event, error, finished, pending, find_event_boundary,
  LaneAnnotatingStream, poll_next,
}

abbrev pub concat : List Bytes → Bytes
concat [] = []
concat (b ∷ bs) = b ++ concat bs

-- A boundary that is found stays where it is when more bytes come.
find-append :
    (s t : Bytes) (i : ℕ) → find_event_boundary s ≡ some i → find_event_boundary (s ++ t) ≡ some i
unfolding find_event_boundary
find-append [] t i e = ground (arith, e)
find-append (a ∷ []) t i e = ground (arith, e)
find-append (a ∷ b ∷ s) t i e = elim (Option-cases (find_event_boundary (b ∷ s))) [
  | inl f ↦ ground (arith, e, f)
  | inr (j, f) ↦ ground (arith, e, f, find-append (b ∷ s) t j f)
]

find-length : (s : Bytes) (i : ℕ) → find_event_boundary s ≡ some i → i + 2 ≤ length s
unfolding find_event_boundary
find-length [] i e = ground (arith, e)
find-length (a ∷ []) i e = ground (arith, e)
find-length (a ∷ b ∷ s) i e = elim (Option-cases (find_event_boundary (b ∷ s))) [
  | inl f ↦ ground (arith, e, f)
  | inr (j, f) ↦ ground (arith, e, f, find-length (b ∷ s) j f)
]

take-append_le : (n : ℕ) (s t : Bytes) → n ≤ length s → take n (s ++ t) ≡ take n s
take-append_le zero s t h = refl
take-append_le (suc n) [] t h = absurd (omega (arith, h))
take-append_le (suc n) (c ∷ s) t h = ap (λ l. c ∷ l) (take-append_le n s t (omega (arith, h)))

drop-append_le : (n : ℕ) (s t : Bytes) → n ≤ length s → drop n (s ++ t) ≡ drop n s ++ t
drop-append_le zero s t h = refl
drop-append_le (suc n) [] t h = absurd (omega (arith, h))
drop-append_le (suc n) (c ∷ s) t h = drop-append_le n s t (omega (arith, h))

abbrev cons_event : Bytes → Option (List Bytes) → Option (List Bytes)
cons_event b none = none
cons_event b (some bs) = some (b ∷ bs)

abbrev drain_on :
    (Bytes → List Item → Option (List Bytes)) → Poll × LaneAnnotatingStream → Option (List Bytes)
drain_on next (event b, s) = cons_event b (next s.buffer s.byte_stream)
drain_on next (finished, s) = some []
drain_on next (error e, s) = none
drain_on next (pending, s) = none

-- A stream is polled to its end, `n` times at most: its events, or `none` if it is not at its end.
unfoldable pub drain : (annotate : Bytes → Bytes) → ℕ → Bytes → List Item → Option (List Bytes)
drain annotate zero buffer items = none
drain annotate (suc n) buffer items = drain_on (drain annotate n) (poll_next annotate buffer items)

abbrev pub chunks : List Bytes → List Item
chunks = map chunk

module _ (annotate : Bytes → Bytes) where
  poll_next-found :
      (i : ℕ) (buffer : Bytes) (items : List Item)
      → find_event_boundary buffer ≡ some i
      → poll_next annotate buffer items ≡ (
        event (annotate (take (i + 2) buffer)),
        record { byte_stream = items; buffer = drop (i + 2) buffer },
      )
  unfolding poll_next
  poll_next-found i buffer [] e = rw (poll_next, e) refl
  poll_next-found i buffer (x ∷ items) e = rw (poll_next, e) refl

  poll_next-more :
      (buffer bytes : Bytes) (items : List Item)
      → find_event_boundary buffer ≡ none
      → poll_next annotate buffer (chunk bytes ∷ items) ≡ poll_next annotate (buffer ++ bytes) items
  unfolding poll_next
  poll_next-more buffer bytes items e = ground (arith, e)

  drain-found :
      (n i : ℕ) (buffer : Bytes) (items : List Item)
      → find_event_boundary buffer ≡ some i
      → drain annotate (suc n) buffer items
        ≡ cons_event (annotate (take (i + 2) buffer)) (drain annotate n (drop (i + 2) buffer) items)
  unfolding drain
  drain-found n i buffer items e =
      ap (drain_on (drain annotate n)) (poll_next-found i buffer items e)

  drain-more :
      (n : ℕ) (buffer bytes : Bytes) (items : List Item)
      → find_event_boundary buffer ≡ none
      → drain annotate (suc n) buffer (chunk bytes ∷ items)
        ≡ drain annotate (suc n) (buffer ++ bytes) items
  unfolding drain
  drain-more n buffer bytes items e =
      ap (drain_on (drain annotate n)) (poll_next-more buffer bytes items e)

  drain-step :
      (n : ℕ)
      → ((buffer : Bytes)
          → (bs : List Bytes)
          → drain annotate n buffer (chunks bs) ≡ drain annotate n (buffer ++ concat bs) [])
      → (buffer : Bytes) (bs : List Bytes)
      → drain annotate (suc n) buffer (chunks bs) ≡ drain annotate (suc n) (buffer ++ concat bs) []
  drain-step n next buffer [] = ap (λ b. drain annotate (suc n) b []) (sym (append-nil buffer))
  drain-step n next buffer (b ∷ bs) = elim (Option-cases (find_event_boundary buffer)) [
    | inl e ↦
        drain-more n buffer b (chunks bs) e
        ∙ drain-step n next (buffer ++ b) bs
        ∙ ap (λ l. drain annotate (suc n) l []) (append_assoc buffer b (concat bs))
    | inr (i, e) ↦
        let short = find-length buffer i e in
        drain-found n i buffer (chunks (b ∷ bs)) e
        ∙ ap (cons_event (annotate (take (i + 2) buffer))) (
            next (drop (i + 2) buffer) (b ∷ bs)
            ∙ ap (λ l. drain annotate n l [])
                (sym (drop-append_le (i + 2) buffer (concat (b ∷ bs)) short)))
        ∙ ap
            (λ l.
              cons_event (annotate l)
                (drain annotate n (drop (i + 2) (buffer ++ concat (b ∷ bs))) []))
            (sym (take-append_le (i + 2) buffer (concat (b ∷ bs)) short))
        ∙ sym (
            drain-found n i (buffer ++ concat (b ∷ bs)) []
              (find-append buffer (concat (b ∷ bs)) i e))
  ]

  -- Polled to its end, the stream emits the same events however the upstream cuts its bytes into
  -- chunks: those it emits if all bytes are there at once.
  pub drain-concat :
      (n : ℕ) (buffer : Bytes) (bs : List Bytes)
      → drain annotate n buffer (chunks bs) ≡ drain annotate n (buffer ++ concat bs) []
  unfolding drain
  drain-concat zero buffer bs = refl
  drain-concat (suc n) buffer bs = drain-step n (drain-concat n) buffer bs

-- Every piece but the last is an event: it ends where its first boundary ends. The last piece is what
-- is left over, without a boundary.
abbrev pub AreEvents : List Bytes → Type 0
AreEvents [] = Unit
AreEvents (b ∷ bs) =
    (((i : ℕ) × (find_event_boundary b ≡ some i) × (length b ≡ i + 2))
      ⊎ ((find_event_boundary b ≡ none) × (b ≢ []) × (bs ≡ [])))
    × AreEvents bs

find_taken :
    (s : Bytes) (i : ℕ)
    → find_event_boundary s ≡ some i
    → find_event_boundary (take (suc (suc i)) s) ≡ some i
unfolding find_event_boundary
find_taken [] i e = ground (arith, e)
find_taken (a ∷ []) i e = ground (arith, e)
find_taken (a ∷ b ∷ s) zero e = elim (Option-cases (find_event_boundary (b ∷ s))) [
  | inl f ↦ ground (arith, e, f)
  | inr (j, f) ↦ ground (arith, e, f)
]
find_taken (a ∷ b ∷ s) (suc i) e = elim (Option-cases (find_event_boundary (b ∷ s))) [
  | inl f ↦ ground (arith, e, f)
  | inr (j, f) ↦ ground (arith, e, f, find_taken (b ∷ s) i)
]

find-take :
    (s : Bytes) (i : ℕ)
    → find_event_boundary s ≡ some i
    → find_event_boundary (take (i + 2) s) ≡ some i
find-take s i e = let more : i + 2 ≡ suc (suc i) = omega arith in rw more (find_taken s i e)

-- What is handed on for a piece: an event is annotated, what is left over is not.
abbrev pub handed : (annotate : Bytes → Bytes) → Bytes → Bytes
handed annotate b = elim (find_event_boundary b) [ none ↦ b | some _ ↦ annotate b ]

module _ (annotate : Bytes → Bytes) where
  -- The poll that hands on what is left behind the last event.
  poll_next-last :
      (c : ℕ) (s : Bytes)
      → find_event_boundary (c ∷ s) ≡ none
      → poll_next annotate (c ∷ s) [] ≡ (event (c ∷ s), record { byte_stream = []; buffer = [] })
  unfolding poll_next
  poll_next-last c s e = rw (poll_next, e) refl

  drain-end : (n : ℕ) → drain annotate (suc n) [] [] ≡ some []
  unfolding drain poll_next find_event_boundary
  drain-end n = refl

  drain-last :
      (n c : ℕ) (s : Bytes)
      → find_event_boundary (c ∷ s) ≡ none
      → drain annotate (suc (suc n)) (c ∷ s) [] ≡ some ((c ∷ s) ∷ [])
  unfolding drain
  drain-last n c s e =
      ap (drain_on (drain annotate (suc n))) (poll_next-last c s e)
      ∙ ap (cons_event (c ∷ s)) (drain-end n)

  handed-rest : (b : Bytes) → find_event_boundary b ≡ none → handed annotate b ≡ b
  handed-rest b e = rw (handed, e) refl

  handed-event :
      (b : Bytes) (i : ℕ) → find_event_boundary b ≡ some i → handed annotate b ≡ annotate b
  handed-event b i e = rw (handed, e) refl

  drain_whole :
      (n : ℕ) (buffer : Bytes)
      → length buffer < n
      → (pieces : List Bytes) × (drain annotate (suc n) buffer []
          ≡ some (map (handed annotate) pieces))
        × (concat pieces ≡ buffer)
        × AreEvents pieces
  drain_whole zero buffer h = absurd (omega (arith, h))
  drain_whole (suc n) [] h = ([], drain-end (suc n), refl, tt)
  drain_whole (suc n) (c ∷ s) h = elim (Option-cases (find_event_boundary (c ∷ s))) [
    | inl e ↦ (
      (c ∷ s) ∷ [],
      drain-last n c s e ∙ ap (λ b. some (b ∷ [])) (sym (handed-rest (c ∷ s) e)),
      append-nil (c ∷ s),
      (inr (e, (λ empty. cc), refl), tt),
    )
    | inr (i, e) ↦
        let (pieces, ran, whole, events) =
          drain_whole n (drop (i + 2) (c ∷ s))
            (omega (arith, h, find-length (c ∷ s) i e, length-drop (i + 2) (c ∷ s))) in
        (
          take (i + 2) (c ∷ s) ∷ pieces,
          drain-found annotate (suc n) i (c ∷ s) [] e
              ∙ ap (cons_event (annotate (take (i + 2) (c ∷ s)))) ran
              ∙ ap (λ b. some (b ∷ map (handed annotate) pieces))
                  (sym (handed-event (take (i + 2) (c ∷ s)) i (find-take (c ∷ s) i e))),
          ap (λ l. take (i + 2) (c ∷ s) ++ l) whole ∙ take-append-drop (i + 2) (c ∷ s),
          (
            inl (
              i,
              find-take (c ∷ s) i e,
              omega (arith, length-take (i + 2) (c ∷ s), find-length (c ∷ s) i e),
            ),
            events,
          ),
        )
  ]

  -- Polled more often than there are bytes, the stream comes to its end, whatever the annotation:
  -- the bytes of all chunks are cut into pieces, none lost, doubled or moved, each of which ends with
  -- its first event boundary or is what is left over behind the last, and these pieces are handed on in
  -- order, the former annotated and the last as it is.
  pub drain_all :
      (n : ℕ) (bs : List Bytes)
      → length (concat bs) < n
      → (pieces : List Bytes) × (drain annotate (suc n) [] (chunks bs)
          ≡ some (map (handed annotate) pieces))
        × (concat pieces ≡ concat bs)
        × AreEvents pieces
  drain_all n bs h =
      let (pieces, ran, whole, events) = drain_whole n (concat bs) h in
      (pieces, drain-concat annotate (suc n) [] bs ∙ ran, whole, events)
