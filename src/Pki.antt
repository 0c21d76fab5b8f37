-- ===== src/Pki.antt =====
-- internal/pki: the certificate authority of a site, its certificates and their renewal.
pub mod X509
pub mod Authority
pub mod Issuing
pub mod Sans
pub mod Rotation
pub mod Trust
pub mod Frames
pub mod Issued
pub mod Renewal
pub mod Served
