-- ===== src/Politeness/Tests.antt =====
-- The spacing of the leases at a few requests.
use tech_atlas.Prelude.{◌+◌, ◌≡◌, refl, List, [], ◌∷◌, All, arith}
use tech_atlas.Prelude.Text.{Text, text}
use tech_atlas.Politeness.{lease_script, get_value}
use tech_atlas.Politeness.Spacing.{LeaseRequest, serve, IsToldToWait, lease_script-serve}

abbrev site : Text
site = text "p:a.org"

abbrev requests : List LeaseRequest
requests =
    record { key = text "p:b.org"; delay = 100; now = 1010 }
    ∷ record { key = site; delay = 100; now = 1040 }
    ∷ []

granted : (lease_script [] site 100 1000).0 ≡ 0
unfolding lease_script get_value
granted = refl

lease_script-serve_example :
    All (IsToldToWait site (1000 + 100)) (serve (lease_script [] site 100 1000).1 requests).0
lease_script-serve_example =
    lease_script-serve [] site 100 1000 requests granted (omega arith, (omega arith, tt))
