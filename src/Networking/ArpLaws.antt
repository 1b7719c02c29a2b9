-- ===== src/Networking/ArpLaws.antt =====
-- What the check of an IPv4 address reports, in every interleaving (Networking/Arp.antt).
use virtnet.Prelude.{
  ℕ, ◌≤◌, ◌≡◌, refl, ◌∙◌, ◌⊎◌, inl, inr, Bool, true, false, List, [], ◌∷◌, Option, none, some,
  Bool-cases, arith, ok, err, other, not, if◌then◌else◌, subst,
}
use virtnet.Networking.Arp.{
  Check, Event, read_failed, reply_read, other_read, packet_made, receiver_done, sender_done,
  packet_sent, send_failed, start, step, run, is_empty_text, arp_verdict,
}

-- A reply from a machine with an address is among the events.
abbrev pub has_reply : List Event → Bool
has_reply [] = false
has_reply (reply_read mac ∷ es) = if is_empty_text mac then has_reply es else true
has_reply (_ ∷ es) = has_reply es

-- A call that failed is among the events.
abbrev pub has_failure : List Event → Bool
has_failure [] = false
has_failure (read_failed ∷ es) = true
has_failure (send_failed ∷ es) = true
has_failure (_ ∷ es) = has_failure es

run-step :
    (retries : ℕ) (e : Event) (es : List Event) (s s2 : Check)
    → run retries (e ∷ es) s ≡ some s2
    → (s1 : Check) × (step retries e s ≡ some s1) × (run retries es s1 ≡ some s2)
unfolding run
run-step retries e es s s2 h = by_step (step retries e s) refl h
  where
    by_step :
        (o : Option Check)
        → step retries e s ≡ o
        → (elim o [ none ↦ none | some s1 ↦ run retries es s1 ]) ≡ some s2
        → (s1 : Check) × (step retries e s ≡ some s1) × (run retries es s1 ≡ some s2)
    by_step none q h = cc
    by_step (some s1) q h = (s1, q, h)

-- Once the receiver has ended, the conflict that it has found stays.
step_ended :
    (retries : ℕ) (e : Event) (s s1 : Check)
    → s.receiving ≡ false
    → step retries e s ≡ some s1
    → (s1.receiving ≡ false) × (s1.conflicting_mac ≡ s.conflicting_mac)
unfolding step
step_ended retries read_failed s s1 over h = ground arith
step_ended retries (reply_read mac) s s1 over h = ground arith
step_ended retries other_read s s1 over h = ground arith
step_ended retries packet_made s s1 over h = ground arith
step_ended retries receiver_done s s1 over h = ground arith
step_ended retries sender_done s s1 over h = ground arith
step_ended retries packet_sent s s1 over h = ground arith
step_ended retries send_failed s s1 over h = ground arith

run_ended :
    (retries : ℕ) (es : List Event) (s s2 : Check)
    → s.receiving ≡ false
    → run retries es s ≡ some s2
    → s2.conflicting_mac ≡ s.conflicting_mac
unfolding run
run_ended retries [] s s2 over h = cc
run_ended retries (e ∷ es) s s2 over h =
    let (s1, q, h1) = run-step retries e es s s2 h in
    let (over1, same) = step_ended retries e s s1 over q in
    run_ended retries es s1 s2 over1 h1 ∙ same

-- The rounds of the sender are bounded.
step_rounds :
    (retries : ℕ) (e : Event) (s s1 : Check)
    → s.rounds ≤ retries
    → step retries e s ≡ some s1
    → s1.rounds ≤ retries
unfolding step
step_rounds retries read_failed s s1 le h = ground arith
step_rounds retries (reply_read mac) s s1 le h = ground arith
step_rounds retries other_read s s1 le h = ground arith
step_rounds retries packet_made s s1 le h = ground arith
step_rounds retries receiver_done s s1 le h = ground arith
step_rounds retries sender_done s s1 le h = ground arith
step_rounds retries packet_sent s s1 le h = ground arith
step_rounds retries send_failed s s1 le h = ground arith

run_rounds :
    (retries : ℕ) (es : List Event) (s s2 : Check)
    → s.rounds ≤ retries
    → run retries es s ≡ some s2
    → s2.rounds ≤ retries
unfolding run
run_rounds retries [] s s2 le h = let e : s ≡ s2 = cc in subst (λ x. x.rounds ≤ retries) e le
run_rounds retries (e ∷ es) s s2 le h =
    let (s1, q, h1) = run-step retries e es s s2 h in
    run_rounds retries es s1 s2 (step_rounds retries e s s1 le q) h1

has_reply-cons :
    (e : Event) (es : List Event)
    → has_reply (e ∷ es) ≡ (if has_reply (e ∷ []) then true else has_reply es)
has_reply-cons read_failed es = refl
has_reply-cons (reply_read mac) es = ground arith
has_reply-cons other_read es = refl
has_reply-cons packet_made es = refl
has_reply-cons receiver_done es = refl
has_reply-cons sender_done es = refl
has_reply-cons packet_sent es = refl
has_reply-cons send_failed es = refl

-- A step finds a conflict if it reads a reply from a machine with an address.
step_found :
    (retries : ℕ) (e : Event) (s s1 : Check)
    → is_empty_text s.conflicting_mac ≡ true
    → step retries e s ≡ some s1
    → (has_reply (e ∷ []) ≡ false) × (is_empty_text s1.conflicting_mac ≡ true)
      ⊎ (has_reply (e ∷ []) ≡ true)
        × (s1.receiving ≡ false)
        × (is_empty_text s1.conflicting_mac ≡ false)
unfolding step
step_found retries read_failed s s1 n h = inl (ground arith)
step_found retries (reply_read mac) s s1 n h = elim (Bool-cases (is_empty_text mac)) [
  | inl e ↦ inl (ground arith)
  | inr e ↦ inr (ground arith)
]
step_found retries other_read s s1 n h = inl (ground arith)
step_found retries packet_made s s1 n h = inl (ground arith)
step_found retries receiver_done s s1 n h = inl (ground arith)
step_found retries sender_done s s1 n h = inl (ground arith)
step_found retries packet_sent s s1 n h = inl (ground arith)
step_found retries send_failed s s1 n h = inl (ground arith)

-- A run finds a conflict if it has a reply from a machine with an address.
run_found :
    (retries : ℕ) (es : List Event) (s s2 : Check)
    → run retries es s ≡ some s2
    → is_empty_text s.conflicting_mac ≡ true
    → is_empty_text s2.conflicting_mac ≡ not (has_reply es)
unfolding run
run_found retries [] s s2 h n =
    let e : s ≡ s2 = cc in subst (λ x. is_empty_text x.conflicting_mac ≡ true) e n
run_found retries (e ∷ es) s s2 h n =
    let (s1, q, h1) = run-step retries e es s s2 h in
    elim (step_found retries e s s1 n q) [
      | inl (none_read, still) ↦
          rw (has_reply-cons e es, none_read) (run_found retries es s1 s2 h1 still)
      | inr (was_read, over, found) ↦
          rw (has_reply-cons e es, was_read, run_ended retries es s1 s2 over h1) found
    ]

has_failure-cons :
    (e : Event) (es : List Event)
    → has_failure (e ∷ es) ≡ false
    → (has_failure (e ∷ []) ≡ false) × (has_failure es ≡ false)
has_failure-cons read_failed es h = cc
has_failure-cons (reply_read mac) es h = (refl, h)
has_failure-cons other_read es h = (refl, h)
has_failure-cons packet_made es h = (refl, h)
has_failure-cons receiver_done es h = (refl, h)
has_failure-cons sender_done es h = (refl, h)
has_failure-cons packet_sent es h = (refl, h)
has_failure-cons send_failed es h = cc

step_unfailed :
    (retries : ℕ) (e : Event) (s s1 : Check)
    → s.failed ≡ false
    → has_failure (e ∷ []) ≡ false
    → step retries e s ≡ some s1
    → s1.failed ≡ false
unfolding step
step_unfailed retries read_failed s s1 n f h = cc
step_unfailed retries (reply_read mac) s s1 n f h = ground arith
step_unfailed retries other_read s s1 n f h = ground arith
step_unfailed retries packet_made s s1 n f h = ground arith
step_unfailed retries receiver_done s s1 n f h = ground arith
step_unfailed retries sender_done s s1 n f h = ground arith
step_unfailed retries packet_sent s s1 n f h = ground arith
step_unfailed retries send_failed s s1 n f h = cc

run_unfailed :
    (retries : ℕ) (es : List Event) (s s2 : Check)
    → s.failed ≡ false
    → has_failure es ≡ false
    → run retries es s ≡ some s2
    → s2.failed ≡ false
unfolding run
run_unfailed retries [] s s2 n f h = let e : s ≡ s2 = cc in subst (λ x. x.failed ≡ false) e n
run_unfailed retries (e ∷ es) s s2 n f h =
    let (s1, q, h1) = run-step retries e es s s2 h in
    let (now, later) = has_failure-cons e es f in
    run_unfailed retries es s1 s2 (step_unfailed retries e s s1 n now q) later h1

-- In every interleaving the sender takes at most as many rounds as there are retries. The check of
-- an IPv4 address fails if a reply from a machine with an address was read, and succeeds if none was
-- and no call failed; in no other case but that some call failed is the answer open.
pub run-arp_verdict :
    (retries : ℕ) (es : List Event) (s : Check)
    → run retries es start ≡ some s
    → (s.rounds ≤ retries)
      × ((has_reply es ≡ true) × (arp_verdict s ≡ err other)
          ⊎ ((has_reply es ≡ false) × (has_failure es ≡ false) × (arp_verdict s ≡ ok tt)
              ⊎ (has_reply es ≡ false) × (has_failure es ≡ true)))
unfolding arp_verdict
run-arp_verdict retries es s h =
    let found = run_found retries es start s h refl in
    let le = run_rounds retries es start s (omega arith) h in
    (
      le,
      elim (Bool-cases (has_reply es)) [
        | inl was_read ↦ inl (was_read, ground arith)
        | inr none_read ↦ elim (Bool-cases (has_failure es)) [
          | inl some_failed ↦ inr (inr (none_read, some_failed))
          | inr none_failed ↦
              let unfailed = run_unfailed retries es start s refl none_failed h in
              inr (inl (none_read, none_failed, ground arith))
        ]
      ],
    )
