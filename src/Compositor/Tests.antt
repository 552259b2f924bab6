-- ===== src/Compositor/Tests.antt =====
-- The theorem on sessions at a concrete host.
use vulkan_cocoa_core.Common.{◌+◌, [], ◌∷◌, some, none}
use vulkan_cocoa_core.Device.Driver.{answer}
use vulkan_cocoa_core.Compositor.Server.{QmvIncomingFrame, Host, Native}
use vulkan_cocoa_core.Compositor.Session.{session, Served, session-Served}

abbrev host : Host
host = record {
  host_create = λ n name. n + 1;
  sync_create = λ n name slots. n + 1;
  resolve = λ n frame. answer frame.surface_port;
}

abbrev native : Native
native = record {
  calls = 0;
  hosts = [];
  syncs = 9 ∷ [];
  surfaces = 4 ∷ [];
  frame_callbacks = [];
  client_callbacks = [];
  started = [];
}

abbrev frame : QmvIncomingFrame
frame = record {
  client_token = 1;
  surface_port = 4;
  width = 8;
  height = 6;
  frame_index = 0;
  received_at_mach_time = 1000;
}

session-Served_example :
    Served host
      (113 ∷ [])
      (115 ∷ [])
      3
      native
      (session host (113 ∷ []) (115 ∷ []) 3 (some frame ∷ none ∷ some frame ∷ []) native)
session-Served_example =
    session-Served host (some frame ∷ none ∷ some frame ∷ []) native (113 ∷ []) (115 ∷ []) 3
