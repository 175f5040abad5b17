-- ===== src/Artemis/Links/Cached.antt =====
-- The cache of senders.
use messaging_poc.Common.{ℕ, true, some, ◌≡◌, refl, ap, ◌∙◌, lookup, string_eq}
use messaging_poc.Abstractions.{Destination}
use messaging_poc.Port.{returned}
use messaging_poc.Scenarios.Program.{◌>>=◌}
use messaging_poc.Artemis.Links.{Rhea, ArtemisLinks, if_open, open_bus_unless, get_bus_sender}

module _ {R : Type 0} (rhea : Rhea R) where
  if_open-some :
      (r : R) (sender : ℕ)
      → rhea.sender_is_open sender r ≡ true
      → if_open rhea.sender_is_open r (some sender) ≡ some sender
  unfolding if_open
  if_open-some r sender is_open = rw is_open refl

  -- An entry of the cache that is open is returned, and nothing changes.
  get_bus_sender-cached :
      (address : Destination) (s : ArtemisLinks R) (sender : ℕ)
      → lookup s.bus_senders address ≡ some sender
      → rhea.sender_is_open sender s.rhea ≡ true
      → get_bus_sender rhea address s ≡ (returned sender, s)
  unfolding get_bus_sender open_bus_unless ◌>>=◌
  get_bus_sender-cached address s sender known is_open =
      ap (λ o. open_bus_unless rhea address o s)
        (ap (if_open rhea.sender_is_open s.rhea) known ∙ if_open-some s.rhea sender is_open)
