-- ===== src/Daemon/Provision/Intent.antt =====
-- What the state directory says at the moment Up of internal/daemon/up.go calls Create.
use larri.Prelude.{◌≡◌, ◌⊎◌, none, List, [], ◌∷◌}
use larri.Prelude.Text.{Text, bytes}
use larri.Core.State.{creating}
use larri.Core.Rig.{Rig}
use larri.State.Store.{Disk, save, record_intent}
use larri.Daemon.World.{Action, intent_journalled, create_called}
use larri.Daemon.Provision.{CreateWorld, Upped}

-- The disk when Create is called.
abbrev pub before_create : CreateWorld → Disk → Rig → Disk
before_create w d r =
    (record_intent w.intent_io (save w.save_io d r).0 r creating (bytes "create intent")).0

abbrev pub creates : Rig → List Action
creates r = intent_journalled creating ∷ create_called r.offer.offer_id ∷ []

-- The disk of the intent behind a save.
abbrev Journalled : CreateWorld → Disk → Rig → Upped → Type 0
Journalled w d r out =
    (out.trace ≡ [])
    ⊎ (((record_intent w.intent_io d r creating (bytes "create intent")).1 ≡ none)
        × (out.trace ≡ creates r))
