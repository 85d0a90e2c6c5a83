-- ===== src/Tests/Fixtures.antt =====
-- Surroundings for the runs: an allocator with a limit, a table that takes every byte for valid, and
-- callbacks that count the bytes they are handed.
use bootstrap_agency_templat.Prelude.{ℕ, ◌+◌, Bool, true, false, some, leb, length, replicate}
use bootstrap_agency_templat.WebSocket.{Outside}
use bootstrap_agency_templat.WebSocket.{success}
use bootstrap_agency_templat.WebSocket.Recv.{Callbacks}

abbrev pub alloc : ℕ → Bool
alloc n = leb n 65536

abbrev pub outside : Outside ℕ
outside = record {
  alloc = alloc;
  validate_utf8 = λ n. 0;
  random_buf = λ n e. (replicate n e, e + 1);
  sha1 = λ s. s;
  base64 = λ s. some s;
  send_data = λ bytes e. (e + length bytes, success);
}

abbrev pub callbacks : Callbacks ℕ
callbacks = record {
  on_http_request = λ ws headers e. record { ws = ws; outside = e; status = success; flag = false };
  on_upgrade = λ ws e. record { ws = ws; outside = e; status = success; flag = false };
  on_frame = λ ws head payload e. record {
    ws = ws;
    outside = e + length payload;
    status = success;
    flag = true;
  };
}
