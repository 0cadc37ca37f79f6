-- ===== src/Rpc/Server/Requests.antt =====
-- What becomes of the bytes of a request.
use pancake_store.Base.{ℕ, ◌≡◌, refl, List, ◌∷◌, ◌++◌}
use pancake_store.Rpc.Method.{Method}
use pancake_store.Rpc.Message.{Messages}
use pancake_store.Rpc.Server.{Handler, serve}
use pancake_store.Comm.Text.{c_str_cut}

-- Two requests of the same method that agree up to a zero byte in each are answered alike, and do
-- the same to the service, whatever follows the zero byte.
pub serve_cut :
    (messages : Messages) (S : Type 0) (m : Method) (handler : Handler messages S m) (state : S)
    (front x y : List ℕ)
    → serve messages S m handler state (front ++ (0 ∷ x))
      ≡ serve messages S m handler state (front ++ (0 ∷ y))
unfolding serve
serve_cut messages S m handler state front x y = rw (c_str_cut front x y) refl
