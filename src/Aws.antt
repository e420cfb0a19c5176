-- ===== src/Aws.antt =====
-- src/aws.h, src/aws.cpp, src/s3.cpp: credentials, signatures and S3 transfers.
pub mod Credentials
pub mod Signing
pub mod S3
pub mod Imds
pub mod Api
