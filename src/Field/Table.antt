-- ===== src/Field/Table.antt =====
-- src/draw.c: the table `tcp_fields`, in pieces. Where the members of the kernel's structures
-- lie is not in the repository: the table takes it as an argument, by the members it names.
pub mod Layout
pub mod Headings
pub mod Entries
mod DiagFields
mod StateFields
mod TimingFields
mod RateFields
mod DeliveryFields
mod CongestionFields
mod MemoryFields
mod SockoptFields
use sockmon.Base.{List, ◌++◌}
use sockmon.Field.{Field}
use Layout.{Abi}
use DiagFields.{diag_fields}
use StateFields.{state_fields}
use TimingFields.{timing_fields}
use RateFields.{rate_fields}
use DeliveryFields.{delivery_fields}
use CongestionFields.{congestion_fields}
use MemoryFields.{memory_fields}
use SockoptFields.{sockopt_fields}

unfoldable pub tcp_fields : Abi → List Field
unfolding diag_fields state_fields timing_fields rate_fields delivery_fields congestion_fields
    memory_fields sockopt_fields
tcp_fields abi =
    diag_fields abi
    ++ state_fields abi
    ++ timing_fields abi
    ++ rate_fields abi
    ++ delivery_fields abi
    ++ congestion_fields abi
    ++ memory_fields abi
    ++ sockopt_fields abi
