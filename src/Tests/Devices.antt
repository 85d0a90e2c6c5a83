-- ===== src/Tests/Devices.antt =====
-- src/device_listener.c and src/port_config.c on a property list of one kind of text: its first byte
-- says which key it answers to.
use bootstrap_agency_templat.Prelude.{
  ℕ, ◌≡◌, refl, true, Option, none, some, List, [], ◌∷◌, ◌++◌, arith, ◌==◌, if◌then◌else◌, length,
  take, drop,
}
use bootstrap_agency_templat.Libc.{codes, strcmp_equal}
use bootstrap_agency_templat.Plist.{Plist}
use bootstrap_agency_templat.HashTable.Keys.{int_key}
use bootstrap_agency_templat.HashTable.Buckets.{IsValid, view}
use bootstrap_agency_templat.HashTable.Reads.{new-IsValid}
use bootstrap_agency_templat.DeviceListener
use bootstrap_agency_templat.DeviceListener.{
  Dl, Status, success, Callbacks, Done, recv_loop, sscanf_uint32, sprintf_uint32, listen_packet,
  attach, detach, dashed,
}
use bootstrap_agency_templat.DeviceListener.Packets.{sscanf-sprintf}
use bootstrap_agency_templat.DeviceListener.Chunks.{recv_loop-append, joined}
use bootstrap_agency_templat.DeviceListener.Devices.{detach-attach}
use bootstrap_agency_templat.PortConfig
use bootstrap_agency_templat.PortConfig.{
  Pc, Entry, Groups, find, matches, select_port, add_loop, add,
}
use bootstrap_agency_templat.PortConfig.Choice.{Chooses, select_port-Chooses}

-- A node is a list of bytes: a dictionary answers every key with itself, and is a "Result" of 0 or a
-- number of its length.
abbrev pub plist : Plist (List ℕ)
plist = record {
  from_xml = λ xml. some xml;
  get_item = λ node key. some node;
  string_val = λ node. some (codes "Result");
  uint_val = λ node. some (length node);
}

abbrev pub callbacks : Callbacks (List ℕ)
callbacks = record {
  on_attach = λ id num e. (num ∷ e, success);
  on_detach = λ id num e. (num ∷ e, success);
}

abbrev pub idle : Dl
idle = DeviceListener.new

abbrev packet : List ℕ
packet = listen_packet []

abbrev first_part : List ℕ
first_part = take 10 packet

abbrev second_part : List ℕ
second_part = drop 10 packet

-- the listener after the first ten bytes: it knows the length
abbrev waiting : Done plist callbacks
waiting = record {
  dl = record idle { has_length = true; body_length = 16 };
  outside = [];
  left = first_part;
  status = success;
}

abbrev finished : Done plist callbacks
finished = record { dl = idle; outside = []; left = []; status = success }

sscanf-sprintf_example :
    (sscanf_uint32 (sprintf_uint32 305419896 ++ (1 ∷ [])) ≡ 305419896)
    × (length (sprintf_uint32 305419896) ≡ 4)
sscanf-sprintf_example = sscanf-sprintf 305419896 (1 ∷ []) (omega arith)

recv_loop-append_example :
    recv_loop plist callbacks 34 idle [] (first_part ++ second_part)
    ≡ some (joined plist callbacks second_part waiting finished)
unfolding recv_loop listen_packet sprintf_uint32 DeviceListener.new
recv_loop-append_example =
    recv_loop-append plist callbacks idle [] first_part second_part waiting finished refl refl

detach-attach_example :
    let a = attach plist callbacks idle [] (7 ∷ []) in
    let d = detach plist callbacks a.dl a.outside (8 ∷ []) in
    (d.outside ≡ (callbacks.on_detach (dashed (codes "Result")) 1 a.outside).0)
    × (d.status ≡ (callbacks.on_detach (dashed (codes "Result")) 1 a.outside).1)
    × IsValid d.dl.device_num_to_device_id
    × ((q : ℕ)
        → view d.dl.device_num_to_device_id q
          ≡ (if 1 == q then none else view idle.device_num_to_device_id q))
unfolding DeviceListener.new
detach-attach_example =
    detach-attach plist callbacks idle [] (7 ∷ []) (8 ∷ []) (codes "Result") new-IsValid.0 refl refl

abbrev any_device : Pc
any_device = add PortConfig.new (some (codes "*")) 9222 9300

select_port-Chooses_example :
    Chooses any_device (some (codes "ab")) 9250 (select_port any_device (some (codes "ab")) 9250)
select_port-Chooses_example = select_port-Chooses any_device (some (codes "ab")) 9250

abbrev line : List ℕ
line = codes "*:9222,:9223"

abbrev regexec : List ℕ → Option Groups
regexec s =
    some (λ i. if i == 3 then some (if strcmp_equal s (codes ":9223") then 1 else 2, 6) else none)
