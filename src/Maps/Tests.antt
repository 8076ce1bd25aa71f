-- ===== src/Maps/Tests.antt =====
-- Examples of the theorems on maps.
use abctl.Common.{some, [], ◌∷◌, ◌≡◌, refl}
use abctl.Maps.{str, raw, obj, Fields, end, field, get, merge, at}
use abctl.Maps.Lookup.{IsUnique}
use abctl.Maps.Merging.{at-merge_override}

-- A base and an override.
abbrev base : Fields
base = field "global" (obj (field "edition" (str "community") (field "port" (raw "8000") end))) end

abbrev override : Fields
override = field "global" (obj (field "port" (raw "9000") end)) end

override-IsUnique : IsUnique override
unfolding get
override-IsUnique = (refl, (refl, tt, tt), tt)

port_overridden : at ("global" ∷ "port" ∷ []) (obj override) ≡ some (raw "9000")
unfolding at get
port_overridden = refl

at-merge_override_example :
    at ("global" ∷ "port" ∷ []) (obj (merge base override)) ≡ some (raw "9000")
at-merge_override_example =
    at-merge_override ("global" ∷ "port" ∷ []) base override (raw "9000") override-IsUnique tt
      port_overridden
