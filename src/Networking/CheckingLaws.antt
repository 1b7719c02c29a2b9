-- ===== src/Networking/CheckingLaws.antt =====
-- When the check of an IPv6 address reports a conflict (pkg/networking/ipchecking/ipchecking.go).
use virtnet.Prelude.{
  ℕ, zero, suc, ◌≡◌, refl, ◌≢◌, ◌↔◌, ◌<◌, arith, Text, text_eq_iff, Error, timeout, Outcome, ok,
  err, panic, out_of_fuel, other,
}
use virtnet.Ip.{Ip}
use virtnet.Networking.Checking.{
  Ndp, Probe, replied, retry, Found, found_reply, no_reply, after_probe, verdict, send_receive,
  send_receive_loop, ip_checking_by_ndp,
}

module _ {S : Type 0} (ndp : Ndp S) (ip6 : Ip) where
  -- So many probes in a row got no reply: another message came, or none in time.
  pub data Silent : ℕ → S → S → Type 0 where
    none_yet : {s : S} → Silent 0 s s
    other_message :
        {n : ℕ} {s s1 s2 : S}
        → send_receive ndp ip6 s ≡ (ok retry, s1)
        → Silent n s1 s2
        → Silent (suc n) s s2
    too_late :
        {n : ℕ} {s s1 s2 : S}
        → send_receive ndp ip6 s ≡ (err timeout, s1)
        → Silent n s1 s2
        → Silent (suc n) s s2

  -- One of the probes gets a reply from another machine, and those before it get none.
  unfoldable pub Taken : ℕ → Text → S → S → Type 0
  Taken retries own s s2 =
      (k : ℕ) × (s1 : S) × (mac : Text) × (k < retries)
      × Silent k s s1
      × (send_receive ndp ip6 s1 ≡ (ok (replied mac), s2))
      × (mac ≢ own)

  loop-Silent :
      (retries k : ℕ) (s s1 s2 : S) (mac : Text)
      → k < retries
      → Silent k s s1
      → send_receive ndp ip6 s1 ≡ (ok (replied mac), s2)
      → send_receive_loop ndp retries ip6 s ≡ (ok (found_reply mac), s2)
  unfolding send_receive_loop
  loop-Silent zero k s s1 s2 mac lt q h = ground arith
  loop-Silent (suc n) zero s _ s2 mac lt none_yet h = rw (h) refl
  loop-Silent (suc n) (suc k) s s1 s2 mac lt (other_message r q) h =
      rw (r) (loop-Silent n k _ s1 s2 mac (omega arith) q h)
  loop-Silent (suc n) (suc k) s s1 s2 mac lt (too_late r q) h =
      rw (r) (loop-Silent n k _ s1 s2 mac (omega arith) q h)

  abbrev FoundIn : ℕ → S → Text → S → Type 0
  FoundIn retries s mac s2 =
      (k : ℕ) × (s1 : S) × (k < retries)
      × Silent k s s1
      × (send_receive ndp ip6 s1 ≡ (ok (replied mac), s2))

  later-other :
      {n : ℕ} {s t s2 : S} {mac : Text}
      → send_receive ndp ip6 s ≡ (ok retry, t)
      → FoundIn n t mac s2
      → FoundIn (suc n) s mac s2
  later-other e (k, s1, lt, silent, got) = (suc k, s1, omega arith, other_message e silent, got)

  later-late :
      {n : ℕ} {s t s2 : S} {mac : Text}
      → send_receive ndp ip6 s ≡ (err timeout, t)
      → FoundIn n t mac s2
      → FoundIn (suc n) s mac s2
  later-late e (k, s1, lt, silent, got) = (suc k, s1, omega arith, too_late e silent, got)

  after_probe-found :
      (n : ℕ) (s s2 : S) (mac : Text)
      → ((t : S) → send_receive_loop ndp n ip6 t ≡ (ok (found_reply mac), s2) → FoundIn n t mac s2)
      → (r : Outcome Probe × S) → send_receive ndp ip6 s ≡ r
      → after_probe (send_receive_loop ndp n ip6) r ≡ (ok (found_reply mac), s2)
      → FoundIn (suc n) s mac s2
  after_probe-found n s s2 mac ih (ok (replied a), t) e h = (0, s, omega arith, none_yet, cc)
  after_probe-found n s s2 mac ih (ok retry, t) e h = later-other e (ih t h)
  after_probe-found n s s2 mac ih (err Error.timeout, t) e h = later-late e (ih t h)
  after_probe-found n s s2 mac ih (err Error.conflict, t) e h = cc
  after_probe-found n s s2 mac ih (err Error.not_found, t) e h = cc
  after_probe-found n s s2 mac ih (err Error.exists, t) e h = cc
  after_probe-found n s s2 mac ih (err Error.no_unallocated_ips, t) e h = cc
  after_probe-found n s s2 mac ih (err Error.other, t) e h = cc
  after_probe-found n s s2 mac ih (panic, t) e h = cc
  after_probe-found n s s2 mac ih (out_of_fuel, t) e h = cc

  loop-found :
      (retries : ℕ) (s s2 : S) (mac : Text)
      → send_receive_loop ndp retries ip6 s ≡ (ok (found_reply mac), s2)
      → FoundIn retries s mac s2
  unfolding send_receive_loop
  loop-found zero s s2 mac h = cc
  loop-found (suc n) s s2 mac h =
      after_probe-found n s s2 mac (λ t q. loop-found n t s2 mac q) (send_receive ndp ip6 s) refl h

  verdict-err :
      (own : Text) (s2 : S) (r : Outcome Found × S)
      → verdict own r ≡ (err other, s2)
      → (mac : Text) × (r ≡ (ok (found_reply mac), s2)) × (mac ≢ own)
  verdict-err own s2 (ok (found_reply mac), t) h =
      (mac, ground (arith, text_eq_iff mac own), λ q. ground (arith, text_eq_iff mac own))
  verdict-err own s2 (ok no_reply, t) h = cc
  verdict-err own s2 (err d, t) h = cc
  verdict-err own s2 (panic, t) h = cc
  verdict-err own s2 (out_of_fuel, t) h = cc

  verdict-differs :
      (own mac : Text) (s2 : S)
      → mac ≢ own
      → verdict {S = S} own (ok (found_reply mac), s2) ≡ (err other, s2)
  verdict-differs own mac s2 h = ground (arith, text_eq_iff mac own)

  -- The check of an IPv6 address fails exactly when one of its probes gets a reply from another
  -- machine, and those before it got another message, or none in time.
  pub ip_checking_by_ndp-err :
      (retries : ℕ) (own : Text) (s s2 : S)
      → (ip_checking_by_ndp ndp retries ip6 own s ≡ (err other, s2)) ↔ Taken retries own s s2
  unfolding ip_checking_by_ndp Taken
  ip_checking_by_ndp-err retries own s s2 = (
    λ h.
        let (mac, found, differs) = verdict-err own s2 (send_receive_loop ndp retries ip6 s) h in
        let (k, s1, lt, silent, got) = loop-found retries s s2 mac found in
        (k, s1, mac, lt, silent, got, differs),
    λ (k, s1, mac, lt, silent, got, differs).
        rw (loop-Silent retries k s s1 s2 mac lt silent got) (verdict-differs own mac s2 differs),
  )
