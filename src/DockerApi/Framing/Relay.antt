-- ===== src/DockerApi/Framing/Relay.antt =====
-- `BoundaryServer.relay`: what of a stream goes on to the other side.
use hosted_replay_harness.Prelude.{
  Bool, Bytes, List, Option, [], false, none, some, true, ◌∷◌, ℕ, ◌++◌, ◌+◌, ◌≡◌,
}
use hosted_replay_harness.DockerApi.Framing.{
  Fed, Feeding, Parser, Shared, Side, fed, feed, value_failure, write_failure, ending,
}
use hosted_replay_harness.DockerApi.Receipt.{parser_error, Receipt}

-- What the relay has done when it ends: the chunks it wrote, and whether it closed the writer.
pub record Relayed : Type 0 where
  pub forwarded : List Bytes
  pub closed : Bool
  pub parser : Parser
  pub shared : Shared

abbrev stopped : Bool → Parser → Shared → Relayed
stopped closed p s = record { forwarded = []; closed = closed; parser = p; shared = s }

abbrev and_forwarded : Bytes → Relayed → Relayed
and_forwarded received r = record r { forwarded = received ∷ r.forwarded }

abbrev sent : Bytes → Option Relayed → Option Relayed
sent received none = none
sent received (some r) = some (and_forwarded received r)

-- `except ValueError: self.receipt.parser_error()`
abbrev noted_failure : Shared → Shared
noted_failure s = record s { receipt = parser_error s.receipt }

-- Behind `feed`; the continuation is the rest of the loop.
relay_on : Bytes → (Parser → Shared → Option Relayed) → Fed → Parser → Shared → Option Relayed
relay_on received rest write_failure p s = some (stopped true p s)
relay_on received rest value_failure p s = sent received (rest p (noted_failure s))
relay_on received rest fed p s = sent received (rest p s)

relay_fed : Bytes → (Parser → Shared → Option Relayed) → Option Feeding → Option Relayed
unfolding relay_on
relay_fed received rest none = none
relay_fed received rest (some f) = relay_on received rest f.ended f.parser f.shared

-- The list is what the reads return; an empty read, or the end of the list, is the end of the
-- stream. `none` does not happen, since `feed` ends.
pub relay : Side → List Bytes → Parser → Shared → Option Relayed
unfolding relay_fed
relay side [] p s = some (stopped false p s)
relay side ([] ∷ chunks) p s = some (stopped false p s)
relay side ((c ∷ received) ∷ chunks) p s =
    relay_fed (c ∷ received) (relay side chunks) (feed side (c ∷ received) p s)

-- The reads before the end of the stream.
abbrev pub until_eof : List Bytes → List Bytes
until_eof [] = []
until_eof ([] ∷ chunks) = []
until_eof ((c ∷ received) ∷ chunks) = (c ∷ received) ∷ until_eof chunks

abbrev closings : Bool → ℕ
closings true = 1
closings false = 0

-- The reads that leave the observer as it is at the end, none of them a write attempt: each was
-- read in full, or was noted as a parser error.
pub data Passes (side : Side) (q : Parser) (t : Shared)
    : List Bytes → Parser → Shared → Type 0 where
  passes_none : Passes side q t [] q t
  passes_fed :
      (received : Bytes) (chunks : List Bytes) (p p' : Parser) (s s' : Shared)
      → feed side received p s ≡ some (ending fed p' s')
      → Passes side q t chunks p' s'
      → Passes side q t (received ∷ chunks) p s
  passes_malformed :
      (received : Bytes) (chunks : List Bytes) (p p' : Parser) (s s' : Shared)
      → feed side received p s ≡ some (ending value_failure p' s')
      → Passes side q t chunks p' (noted_failure s')
      → Passes side q t (received ∷ chunks) p s

-- Why the relay ended, at the observer that the forwarded reads left: the stream ended, or the next
-- read is a write attempt, and neither it nor what follows was forwarded.
pub data Stops (side : Side) (p : Parser) (s : Shared) : List Bytes → Relayed → Type 0 where
  at_eof : Stops side p s [] (stopped false p s)
  at_attempt :
      (received : Bytes) (chunks : List Bytes) (q : Parser) (t : Shared)
      → feed side received p s ≡ some (ending write_failure q t)
      → Stops side p s (received ∷ chunks) (stopped true q t)

abbrev end_of : Relayed → Relayed
end_of r = stopped r.closed r.parser r.shared

-- What holds when the relay ends: it wrote the first reads as they came, which are those before the
-- first write attempt, and it closed the writer exactly at that attempt, which was counted.
pub record IsFaithful (side : Side) (chunks : List Bytes) (p : Parser) (s : Shared) (r : Relayed)
    : Type 0 where
  pub held : List Bytes
  pub in_order : r.forwarded ++ held ≡ until_eof chunks
  pub observer : Parser
  pub noted : Shared
  pub passed : Passes side observer noted r.forwarded p s
  pub stop : Stops side observer noted held (end_of r)
  pub attempts :
      r.shared.receipt.write_attempt_count ≡ s.receipt.write_attempt_count + closings r.closed

Faithful : Side → List Bytes → Parser → Shared → Option Relayed → Type 0
Faithful side chunks p s o = (r : Relayed) × (o ≡ some r) × IsFaithful side chunks p s r
