-- ===== src/Endpoints/Routes.antt =====
-- server/src/main.rs: the routes of the server, behind the prefix /api that nginx.conf strips. The route of files, whose
-- path may have any length, and that of the metrics are left out.
pub mod Servers
pub mod Channels
pub mod Others
use together.Base.{String, List}
use together.Endpoints.{Method}

pub data Segment : Type 0 where
  word : String → Segment
  param : String → Segment

pub record Route : Type 0 where
  pub method : Method
  pub handler : String
  pub pattern : List Segment

abbrev pub to : Method → String → List Segment → Route
to method handler pattern = record { method = method; handler = handler; pattern = pattern }
