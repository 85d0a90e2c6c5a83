-- ===== src/Proxy.antt =====
-- src/ios_webkit_debug_proxy.c: the proxy between the browsers' WebSockets and the web inspectors of the
-- devices. A pointer to a WebSocket client is a number; a pointer to a page is the number of the page,
-- under which its inspector keeps it.
pub mod Path
pub mod Escape
pub mod Text
pub mod Pages
pub mod Session
pub mod Clients
pub mod Listing
pub mod Apps
pub mod Owned
pub mod Writes
pub mod Stopping
pub mod Starting
pub mod Closing
pub mod Listed
pub mod Reported
pub mod Reach
pub mod Dangling
pub mod Listen
pub mod Chosen
pub mod Listens
pub mod Frames
pub mod Requests
pub mod Lists
use bootstrap_agency_templat.Prelude.{ℕ, Bool, Option, List}

-- `struct iwdp_ipage_struct`; the app_id is set when the page is made
pub record Ipage : Type 0 where
  pub page_num : ℕ
  pub app_id : List ℕ
  pub page_id : ℕ
  pub connection_id : Option (List ℕ)
  pub title : Option (List ℕ)
  pub url : Option (List ℕ)
  pub sender_id : Option (List ℕ)
  pub iws : Option ℕ

-- `struct iwdp_iws_struct`; of `ifs` the file descriptor of the static server
pub record Iws : Type 0 where
  pub ws_fd : ℕ
  pub ws_id : List ℕ
  pub page_num : ℕ
  pub ipage : Option ℕ
  pub ifs : Option ℕ

-- `struct iwdp_iwi_struct`; of `app` the app_id, which is all that is read
pub record Iwi : Type 0 where
  pub connection_id : Option (List ℕ)
  pub app : Option (List ℕ)
  pub connected : Bool
  pub max_page_num : ℕ
  pub app_id_to_true : List (List ℕ)

-- `struct iwdp_iport_struct`. `port`, `s_fd` and `device_os_version` are 32-bit patterns. `clients` is
-- what the pointers in `ws_id_to_iws` lead to, and `pages` is the table `page_num_to_ipage` of `iwi`.
pub record Iport : Type 0 where
  pub port : ℕ
  pub s_fd : ℕ
  pub is_sticky : Bool
  pub ws_id_to_iws : List ℕ → Option ℕ
  pub clients : ℕ → Option Iws
  pub device_id : Option (List ℕ)
  pub device_name : Option (List ℕ)
  pub device_os_version : ℕ
  pub iwi : Option Iwi
  pub pages : List Ipage
