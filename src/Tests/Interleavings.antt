-- ===== src/Tests/Interleavings.antt =====
-- The theorem on the check of an IPv4 address at a concrete interleaving.
use virtnet.Prelude.{◌≡◌, refl, ◌⊎◌, ◌≤◌, true, false, List, [], ◌∷◌, some, bytes, ok, err, other}
use virtnet.Networking.Arp.{
  Check, Event, read_failed, reply_read, other_read, packet_made, packet_sent, sender_done, run,
  arp_verdict,
}
use virtnet.Networking.Arp
use virtnet.Networking.ArpLaws.{has_reply, has_failure, run-arp_verdict}

-- A reply is read between two packets.
abbrev conflict_events : List Event
conflict_events =
    packet_made
    ∷ packet_sent
    ∷ other_read
    ∷ reply_read (bytes "0b")
    ∷ packet_sent
    ∷ sender_done
    ∷ []

abbrev after_conflict : Check
after_conflict = record Arp.start {
  rounds = 3;
  made = true;
  stop = true;
  conflicting_mac = bytes "0b";
  cancelled = true;
  receiving = false;
}

conflict_run : run 3 conflict_events Arp.start ≡ some after_conflict
unfolding run
conflict_run = refl

-- A packet that is sent behind a failed Read makes the check succeed.
lost_failure_run :
    run 3 (packet_made ∷ read_failed ∷ packet_sent ∷ sender_done ∷ []) Arp.start
    ≡ some (record Arp.start {
      rounds = 2;
      made = true;
      stop = true;
      cancelled = true;
      receiving = false;
    })
unfolding run
lost_failure_run = refl

run-arp_verdict_example :
    (after_conflict.rounds ≤ 3)
    × ((has_reply conflict_events ≡ true) × (arp_verdict after_conflict ≡ err other)
        ⊎ ((has_reply conflict_events ≡ false)
              × (has_failure conflict_events ≡ false)
              × (arp_verdict after_conflict ≡ ok tt)
            ⊎ (has_reply conflict_events ≡ false) × (has_failure conflict_events ≡ true)))
run-arp_verdict_example = run-arp_verdict 3 conflict_events after_conflict conflict_run
