-- ===== src/Tests/Services.antt =====
-- The theorems on services, at OpenSSH's.
use leviso.Component.Service
use leviso.Component.Types.{Phase}
use leviso.Component.Definitions.{openssh_svc, chrony_svc}
use leviso.Base.{length, ◌≡◌, refl}
use leviso.Component.Service.Order.{IsOrdered, ops-IsOrdered}
use leviso.Component.Service.RoundTrip.{service_of, service_of-ops}
use leviso.Tests.Data.{lists}

ops-IsOrdered_example : IsOrdered (Service.ops (openssh_svc lists))
ops-IsOrdered_example = ops-IsOrdered (openssh_svc lists)

service_of-ops_example :
    service_of "openssh" Phase.services (Service.ops (openssh_svc lists)) ≡ openssh_svc lists
service_of-ops_example = service_of-ops (openssh_svc lists)

-- Chrony has no binary and no unit of its own.
chrony_ops : length (Service.ops (chrony_svc lists)) ≡ 8
unfolding Service.ops
chrony_ops = refl
