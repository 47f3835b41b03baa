-- ===== src/Errors/Tests.antt =====
-- Runs of errors.go, and the theorems at concrete messages.
use cubrid_go.Prelude.{pos, negsuc, ◌≡◌, refl, ◌↔◌, ◌⊎◌, true, ascii}
use cubrid_go.Result.{integrity_error, programming_error, base_error}
use cubrid_go.Errors.{contains_ci, new_error, integrity_keywords, programming_keywords}
use cubrid_go.Errors.Search.{Occurs, contains_ci_iff}
use cubrid_go.Errors.Classify.{Mentions, server_error, new_error_cases}

duplicate_key :
    new_error (negsuc 669) (ascii "Operation would have caused a DUPLICATE key")
    ≡ integrity_error
        (server_error (negsuc 669) (ascii "Operation would have caused a DUPLICATE key"))
unfolding new_error
duplicate_key = refl

bad_syntax :
    new_error (negsuc 492) (ascii "Syntax: near FROM")
    ≡ programming_error (server_error (negsuc 492) (ascii "Syntax: near FROM"))
unfolding new_error
bad_syntax = refl

contains_ci_iff_example :
    (contains_ci (ascii "Table NOT FOUND") (ascii "not found") ≡ true)
    ↔ Occurs (ascii "not found") (ascii "Table NOT FOUND")
contains_ci_iff_example = contains_ci_iff (ascii "Table NOT FOUND") (ascii "not found")

new_error_cases_example :
    (Mentions integrity_keywords (ascii "lock timeout")
      × (new_error (pos 1) (ascii "lock timeout")
          ≡ integrity_error (server_error (pos 1) (ascii "lock timeout"))))
    ⊎ ((¬ Mentions integrity_keywords (ascii "lock timeout"))
        × Mentions programming_keywords (ascii "lock timeout")
        × (new_error (pos 1) (ascii "lock timeout")
            ≡ programming_error (server_error (pos 1) (ascii "lock timeout"))))
    ⊎ ((¬ Mentions integrity_keywords (ascii "lock timeout"))
        × (¬ Mentions programming_keywords (ascii "lock timeout"))
        × (new_error (pos 1) (ascii "lock timeout")
            ≡ base_error (server_error (pos 1) (ascii "lock timeout"))))
new_error_cases_example = new_error_cases (pos 1) (ascii "lock timeout")
