-- ===== src/Examples/PortRuns.antt =====
-- Lines of llama-server's log.
use runed.Prelude.{◌++◌, ◌≡◌, refl, arith, [], ◌∷◌, none, some, Bytes, List, text}
use runed.Backend.Port.{find_port, first_port}
use runed.Backend.Port.Found.{logged, logged_named, first_port-logged}

both_forms :
    (find_port (text "main: Server is Listening on http://127.0.0.1:53183") ≡ some (text "53183"))
    × (find_port (text "HTTP server listening on host 127.0.0.1, PORT 34567") ≡ some (text "34567"))
    × (find_port (text "listening on x:80a, and on y:81") ≡ some (text "81"))
    × (find_port (text "port 80, not listening") ≡ none)
unfolding find_port
both_forms = (refl, refl, refl, refl)

abbrev load_lines : List Bytes
load_lines = text "build: 1" ∷ text "srv load_model: ok" ∷ []

first_port-logged_example :
    (first_port (load_lines ++ logged (text "127.0.0.1") 53183 ∷ []) ≡ some 53183)
    × (first_port (load_lines ++ logged_named (text "127.0.0.1") 53183 ∷ []) ≡ some 53183)
unfolding find_port
first_port-logged_example =
    first_port-logged load_lines [] (text "127.0.0.1") 53183
      ((omega arith, refl), ((omega arith, refl), tt))
      (refl, (refl, (refl, (refl, (refl, (refl, (refl, (refl, (refl, tt))))))))) (omega arith)
      (omega arith)
