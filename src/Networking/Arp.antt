-- ===== src/Networking/Arp.antt =====
-- pkg/networking/ipchecking/ipchecking.go, ipCheckingByARP: the check of an IPv4 address, whose sender
-- and receiver run at the same time and share `err` and `conflictingMac`. A step is one round of
-- one of the two, which is taken to be atomic; a sequence of events is an interleaving.
use virtnet.Prelude.{
  ℕ, ◌+◌, Bool, true, false, not, ◌&&◌, List, [], ◌∷◌, Option, none, some, if◌then◌else◌, ltb, Text,
  Outcome, ok, err, other,
}

-- What the two share, and where each of them is.
pub record Check : Type 0 where
  -- The rounds of the sender.
  pub rounds : ℕ
  -- The packet is made.
  pub made : Bool
  pub stop : Bool
  -- `err != nil`
  pub failed : Bool
  -- The empty text stands for no conflict, as in the code.
  pub conflicting_mac : Text
  pub cancelled : Bool
  pub receiving : Bool

-- What happens in one step: to the receiver's Read, or to the sender's select.
pub data Event : Type 0 where
  -- Read fails.
  read_failed : Event
  -- Read gives a reply of the address that is checked, from that machine.
  reply_read : Text → Event
  -- Read gives another packet.
  other_read : Event
  -- The receiver finds the context done.
  receiver_done : Event
  -- The sender finds the context done.
  sender_done : Event
  -- NewPacket makes the packet, behind the start of the receiver.
  packet_made : Event
  -- The ticker fires, and WriteTo sends the packet or fails.
  packet_sent : Event
  send_failed : Event

-- The receiver is started. An error of NewPacket, which ends the check at once, is left out.
abbrev pub start : Check
start = record {
  rounds = 0;
  made = false;
  stop = false;
  failed = false;
  conflicting_mac = [];
  cancelled = false;
  receiving = true;
}

abbrev when : Bool → Check → Option Check
when true s = some s
when false s = none

-- The loop of the sender goes on.
abbrev pub sending : ℕ → Check → Bool
sending retries s = s.made && ltb s.rounds retries && not s.stop

-- The state behind a step; `none` where the step cannot happen.
unfoldable pub step : ℕ → Event → Check → Option Check
step retries read_failed s =
    when s.receiving (record s { failed = true; cancelled = true; receiving = false })
step retries (reply_read mac) s =
    when s.receiving
      (record s { failed = false; conflicting_mac = mac; cancelled = true; receiving = false })
step retries other_read s = when s.receiving (record s { failed = false })
step retries receiver_done s = when (s.receiving && s.cancelled) (record s { receiving = false })
step retries packet_made s = when (not s.made) (record s { made = true; failed = false })
step retries sender_done s =
    when (sending retries s && s.cancelled) (record s { rounds = s.rounds + 1; stop = true })
step retries packet_sent s =
    when (sending retries s) (record s { rounds = s.rounds + 1; failed = false })
step retries send_failed s =
    when (sending retries s) (record s { rounds = s.rounds + 1; failed = true; stop = true })

-- The steps of an interleaving, in order.
unfoldable pub run : ℕ → List Event → Check → Option Check
unfolding step
run retries [] s = some s
run retries (e ∷ es) s = elim (step retries e s) [ none ↦ none | some s1 ↦ run retries es s1 ]

abbrev pub is_empty_text : Text → Bool
is_empty_text [] = true
is_empty_text (c ∷ t) = false

-- What ipCheckingByARP returns when the loop of the sender has ended.
unfoldable pub arp_verdict : Check → Outcome (Unit {0})
arp_verdict s =
    if s.failed
    then err other
    else if not (is_empty_text s.conflicting_mac)
    then err other
    else ok tt
