-- ===== src/Firmware/Tcp/Ping.antt =====
-- The keepalive: firmware/vanilla/TcpServerManager.cpp, cycle.
use vehicle_spy.Base.{ℕ, ◌≡◌, refl, ◌∙◌, false, [], ◌∷◌, ◌++◌, All-append, ◌==◌}
use vehicle_spy.Base.Text.{
  Text, codes, Lacks, starts_with, text_eq, trim_by, drop_while, trim_end-append,
}
use vehicle_spy.Firmware.Tcp.Chunks.{commands_line, commands_last, receive_lem}
use vehicle_spy.Firmware.Tcp.Manager.{Manager, println, flush, is_ws, trim, handle_line, receive}

ping-trim :
    (s : Text) (d : ℕ)
    → is_ws d ≡ false
    → trim (codes "PING " ++ (s ++ d ∷ [])) ≡ codes "PING " ++ (s ++ d ∷ [])
unfolding trim trim_by drop_while
ping-trim s d h = trim_end-append is_ws (codes "PING " ++ s) d [] h tt

ping-handle_line :
    (id : ℕ) (s : Text)
    → handle_line id (codes "PING " ++ s) ≡ println id (codes "PONG " ++ s) ∷ flush id ∷ []
unfolding handle_line starts_with text_eq
ping-handle_line id s = refl

ping-Lacks :
    (s : Text) (d : ℕ)
    → Lacks b'\r' s
    → (b'\r' == d) ≡ false
    → Lacks b'\r' (codes "PING " ++ (s ++ d ∷ []))
ping-Lacks s d h k = (refl, (refl, (refl, (refl, (refl, All-append _ s (d ∷ []) h (k, tt))))))

-- With nothing pending, a line of PING, a space and a text that holds no carriage return and ends with
-- no white space is answered with PONG and the same text, flushed, and nothing is passed on or kept.
pub receive_ping :
    (id : ℕ) (s : Text) (d : ℕ) (m : Manager)
    → Lacks b'\r' s
    → (b'\r' == d) ≡ false
    → is_ws d ≡ false
    → receive id ((codes "PING " ++ (s ++ d ∷ [])) ++ b'\r' ∷ []) (record m { partial_line = [] })
      ≡ (
        record m { partial_line = [] },
        println id (codes "PONG " ++ (s ++ d ∷ [])) ∷ flush id ∷ [],
      )
receive_ping id s d m h k w =
    let line = codes "PING " ++ (s ++ d ∷ []) in
    let done = commands_line id (line ++ b'\r' ∷ []) line [] refl (ping-Lacks s d h k) in
    receive_lem id (line ++ b'\r' ∷ []) (record m { partial_line = [] }) tt
    ∙ (λ i. (record m { partial_line = (done i).1 }, (done i).0))
    ∙ (λ i. (
      record m { partial_line = (commands_last id [] tt i).1 },
      handle_line id (ping-trim s d w i) ++ (commands_last id [] tt i).0,
    ))
    ∙ (λ i. (record m { partial_line = [] }, ping-handle_line id (s ++ d ∷ []) i ++ []))
