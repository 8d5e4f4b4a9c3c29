-- ===== src/Tests/Logs.antt =====
-- A request with its line end.
use tcpremote_device_control.Base.{◌≡◌, refl, ◌∷◌, ◌++◌, [], some, Bytes, codes}
use tcpremote_device_control.ServerLog.{
  copy_single_line, quoted, cut_line, IsLine, log_client_command, log_client_command-IsLine,
}

abbrev request : Bytes
request = codes "LED ON" ++ 10 ∷ []

cut_test : copy_single_line 5 (some request) ≡ some (codes "LED ")
unfolding copy_single_line
cut_test = refl

-- Two lines in one request.
abbrev forged : Bytes
forged = codes "QUIT" ++ 10 ∷ codes "[1970-01-01 00:00:00] 127.0.0.1:1"

log_client_command-IsLine_example :
    (front : Bytes) × (log_client_command
        (codes "now")
        (some (codes "10.0.0.2", 5000))
        forged
        (codes "OK QUIT")
      ≡ (front
          ++ (quoted (cut_line forged) ++ (codes " -> " ++ quoted (cut_line (codes "OK QUIT")))))
        ++ 10 ∷ [])
    × IsLine (
        front
        ++ (quoted (cut_line forged) ++ (codes " -> " ++ quoted (cut_line (codes "OK QUIT")))))
log_client_command-IsLine_example =
    log_client_command-IsLine (codes "now") (some (codes "10.0.0.2", 5000)) forged (codes "OK QUIT")
      (refl, (refl, (refl, tt))) (refl, (refl, (refl, (refl, (refl, (refl, (refl, (refl, tt))))))))
