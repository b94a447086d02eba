-- ===== src/Providers.antt =====
-- internal/provider/providers: the clients of the DNS services, a module for each; their choice by
-- name, and what all of them keep to.
pub mod Allinkl
pub mod Changeip
pub mod Cloudflare
pub mod Capitals
pub mod Contract
pub mod Acceptance
pub mod Custom
pub mod Dd24
pub mod Ddnss
pub mod Desec
pub mod Digitalocean
pub mod Dnsomatic
pub mod Domeneshop
pub mod Duckdns
pub mod Dyn
pub mod Dynu
pub mod Dynv6
pub mod Easydns
pub mod Freedns
pub mod Gandi
pub mod Godaddy
pub mod Goip
pub mod He
pub mod Infomaniak
pub mod Inwx
pub mod Ipv64
pub mod Loopia
pub mod Myaddr
pub mod Njalla
pub mod Noip
pub mod Nowdns
pub mod Opendns
pub mod Recorded
pub mod Registry
pub mod Rewriting
pub mod Selfhostde
pub mod Spdyn
pub mod Strato
pub mod Variomedia
pub mod Zoneedit
