-- ===== src/Examples/Scopes.antt =====
-- A run's scope with a step and a tool call below it.
use generic_ai.Base.{String, ◌≡◌, refl, none, some, List, [], ◌∷◌, length}
use generic_ai.Scope.{ScopeInput, create_scope, scope_depth}
use generic_ai.Scope.Line.{IsLine, descend, descend-IsLine}

abbrev unnamed : ScopeInput String
unnamed = record { id = none; kind = none; label = none; metadata = none }

abbrev tool_call : ScopeInput String
tool_call = record { id = some "call"; kind = some "tool"; label = none; metadata = none }

abbrev levels : List (String × ScopeInput String)
levels = ("step", unnamed) ∷ ("x", tool_call) ∷ []

call_lineage :
    (descend (create_scope "run" none unnamed) levels).lineage ≡ "run" ∷ "step" ∷ "call" ∷ []
unfolding create_scope
call_lineage = refl

descend-IsLine_example :
    IsLine (descend (create_scope "run" none unnamed) levels)
    × ((descend (create_scope "run" none unnamed) levels).root_id
        ≡ (create_scope "run" none unnamed).id)
    × (scope_depth (descend (create_scope "run" none unnamed) levels) ≡ length levels)
descend-IsLine_example = descend-IsLine "run" unnamed levels
